-- ===== src/V1/Mcp/Requests/Paths.antt =====
-- The resources that may be read.
use secure_mcp.Shared.{
  ℕ, ◌≤◌, ◌≡◌, refl, ap, ◌∙◌, ◌⊎◌, inl, inr, Bool, true, false, not, ◌||◌, List, [], ◌∷◌, ◌++◌,
  arith, ltb, if◌then◌else◌, Bool-cases, and_intro, and_left, and_right, length, all, drop, codes,
  ap₂,
}
use secure_mcp.Http.Target.{same, starts_with}
use secure_mcp.Http.Target.Sound.{same-eq}
use secure_mcp.V1.Mcp.Schemas.{is_tool_char}
use secure_mcp.V1.Mcp.Requests.{
  Verdict, accepted, refused, has_part, body_then, one_then, is_path_char, fits, is_resource,
  validate_resource_access,
}

-- A text of a class, at least one character, between two fixed ones.
pub record Matches (prefix : List ℕ) (p : ℕ → Bool) (suffix uri : List ℕ) : Type 0 where
  pub body : List ℕ
  pub split : uri ≡ prefix ++ (body ++ suffix)
  pub filled : 1 ≤ length body
  pub in_class : all p body ≡ true

starts_with_lem :
    (prefix s : List ℕ) → starts_with prefix s ≡ true → s ≡ prefix ++ drop (length prefix) s
starts_with_lem [] s h = refl
starts_with_lem (p ∷ ps) [] h = absurd (cc)
starts_with_lem (p ∷ ps) (c ∷ s) h =
    ap₂ ◌∷◌ (ground (arith, h)) (starts_with_lem ps s (ground (arith, h)))

body_then_lem :
    (p : ℕ → Bool) (suffix s : List ℕ)
    → body_then p suffix s ≡ true
    → (body : List ℕ) × ((s ≡ body ++ suffix) × (all p body ≡ true))
body_then_lem p suffix [] h = ([], (same-eq [] suffix h, refl))
body_then_lem p suffix (c ∷ cs) h = elim (Bool-cases (p c)) [
  | inl m ↦
      let (body, (e, q)) = body_then_lem p suffix cs (ground (arith, h, m)) in
      (c ∷ body, (ap (λ x. c ∷ x) e, and_intro m q))
  | inr m ↦ ([], (same-eq (c ∷ cs) suffix (ground (arith, h, m)), refl))
]

one_then_lem :
    (p : ℕ → Bool) (suffix s : List ℕ)
    → one_then p suffix s ≡ true
    → (body : List ℕ) × ((s ≡ body ++ suffix) × ((1 ≤ length body) × (all p body ≡ true)))
one_then_lem p suffix [] h = absurd (cc)
one_then_lem p suffix (c ∷ cs) h =
    let (body, (e, q)) = body_then_lem p suffix cs (and_right (p c) _ h) in
    (
      c ∷ body,
      (ap (λ x. c ∷ x) e, (omega arith, and_intro (and_left (p c) (body_then p suffix cs) h) q)),
    )

fits-Matches :
    (prefix : List ℕ) (p : ℕ → Bool) (suffix uri : List ℕ)
    → fits prefix p suffix uri ≡ true
    → Matches prefix p suffix uri
fits-Matches prefix p suffix uri h =
    let behind = drop (length prefix) uri in
    let (body, (e, (filled, q))) =
      one_then_lem p suffix behind (and_right (starts_with prefix uri) _ h) in
    record {
      body = body;
      split =
          starts_with_lem prefix uri (and_left _ (one_then p suffix behind) h)
          ∙ ap (λ s. prefix ++ s) e;
      filled = filled;
      in_class = q;
    }

not_ltb : (a b : ℕ) → ltb a b ≡ false → b ≤ a
not_ltb a b h = ground arith

or_cases : (a b : Bool) → (a || b) ≡ true → (a ≡ true) ⊎ (b ≡ true)
or_cases true b h = inl refl
or_cases false b h = inr h

settled :
    (long up known : Bool) (a b c : List ℕ)
    → (let v : Verdict Unit =
          if long
          then refused a
          else if up
          then refused b
          else if not known
          then refused c
          else accepted tt in
        v)
      ≡ accepted tt
    → (long ≡ false) × (known ≡ true)
settled true up known a b c h = absurd (cc)
settled false true known a b c h = absurd (cc)
settled false false false a b c h = absurd (cc)
settled false false true a b c h = (refl, refl)

-- A resource is read only if its name has at most 500 code units and is `server-info`, or `config/`
-- with letters, digits, underscores and dashes behind it, or a path of such characters and slashes below
-- `data/` with the ending `.json` or below `templates/` with the ending `.txt`.
validate_resource_access-Matches :
    (uri : List ℕ)
    → validate_resource_access uri ≡ accepted tt
    → (length uri ≤ 500)
      × ((uri ≡ codes "server-info")
          ⊎ Matches (codes "config/") is_tool_char [] uri
          ⊎ Matches (codes "data/") is_path_char (codes ".json") uri
          ⊎ Matches (codes "templates/") is_path_char (codes ".txt") uri)
unfolding validate_resource_access
validate_resource_access-Matches uri h =
    let up = has_part (codes "../") uri || has_part (codes "..\\") uri in
    let (small, known) =
      settled (ltb 500 (length uri)) up (is_resource uri) (codes "URI too long")
        (codes "Path traversal detected") (codes "Resource access denied: " ++ uri) h in
    (
      not_ltb 500 (length uri) small,
      elim (or_cases (same uri (codes "server-info")) _ known) [
        | inl e ↦ inl (same-eq uri (codes "server-info") e)
        | inr rest ↦ elim (or_cases (fits (codes "config/") is_tool_char [] uri) _ rest) [
          | inl e ↦ inr (inl (fits-Matches (codes "config/") is_tool_char [] uri e))
          | inr files ↦
              elim (or_cases (fits (codes "data/") is_path_char (codes ".json") uri) _ files) [
                | inl e ↦
                    inr
                      (inr (inl (fits-Matches (codes "data/") is_path_char (codes ".json") uri e)))
                | inr e ↦ inr (
                    inr (inr (fits-Matches (codes "templates/") is_path_char (codes ".txt") uri e)))
              ]
        ]
      ],
    )
