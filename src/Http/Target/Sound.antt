-- ===== src/Http/Target/Sound.antt =====
-- What an accepted request target is, and what an accepted token is.
use secure_mcp.Shared.{
  ℕ, ◌≡◌, refl, ap, ◌∙◌, inl, inr, true, false, Option, some, List, [], ◌∷◌, ◌++◌, arith, ◌==◌,
  Bool-cases, Option-cases, any, ap₂,
}
use secure_mcp.Http.Target.{
  is_forbidden, before_query, escapes_closed, same, request_path, starts_with,
}

pub same_refl : (xs : List ℕ) → same xs xs ≡ true
same_refl [] = refl
same_refl (x ∷ xs) = ground (arith, same_refl xs)

pub same-eq : (xs ys : List ℕ) → same xs ys ≡ true → xs ≡ ys
same-eq [] [] h = refl
same-eq [] (y ∷ ys) h = absurd (cc)
same-eq (x ∷ xs) [] h = absurd (cc)
same-eq (x ∷ xs) (y ∷ ys) h = ap₂ ◌∷◌ (ground arith) (same-eq xs ys (ground arith))

-- An accepted path: it begins the target, and the URL parser reads the target as that path on the
-- server's own origin, so that no normalization chooses another route.
pub record Selected (parse_url : List ℕ → Option (List ℕ × List ℕ)) (target origin path : List ℕ)
    : Type 0 where
  pub begins : (rest : List ℕ) × (target ≡ path ++ rest)
  pub rooted : starts_with (b'/' ∷ []) target ≡ true
  pub relative : starts_with (b'/' ∷ b'/' ∷ []) target ≡ false
  pub printable : any is_forbidden target ≡ false
  pub closed : escapes_closed path ≡ true
  pub agreed : parse_url target ≡ some (origin, path)

before_query-begins : (target : List ℕ) → (rest : List ℕ) × (target ≡ before_query target ++ rest)
before_query-begins [] = ([], refl)
before_query-begins (c ∷ cs) = elim (Bool-cases (c == b'?')) [
  | inl e ↦ simp e (c ∷ cs, refl)
  | inr e ↦ let (rest, r) = before_query-begins cs in simp e (rest, ap (λ xs. c ∷ xs) r)
]

-- A path that `request_path` accepts is the part of the target before the query, and the URL parser
-- reads the target as exactly this path on the server's own origin; the target starts with one slash
-- and holds no control character, space or fragment, and its path no open escape.
request_path_sound :
    (parse_url : List ℕ → Option (List ℕ × List ℕ)) (target origin path : List ℕ)
    → request_path parse_url target origin ≡ some path
    → Selected parse_url target origin path
unfolding request_path
request_path_sound parse_url target origin path h = elim (Option-cases (parse_url target)) [
  | inl e ↦ absurd (ground arith)
  | inr ((found, pathname), e) ↦
      let p : before_query target ≡ path = ground arith in
      let o : found ≡ origin = same-eq found origin (ground arith) in
      let q : pathname ≡ before_query target = same-eq pathname _ (ground arith) in
      let (rest, r) = before_query-begins target in
      record {
        begins = (rest, r ∙ ap (λ x. x ++ rest) p);
        rooted = ground arith;
        relative = ground arith;
        printable = ground arith;
        closed = ground arith;
        agreed = e ∙ ap₂ (λ x y. some (x, y)) o (q ∙ p);
      }
]
