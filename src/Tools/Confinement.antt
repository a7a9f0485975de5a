-- ===== src/Tools/Confinement.antt =====
-- What `documents_read` may ask of the operating system: it stays below its root.
use secure_mcp.Shared.{
  ℕ, ◌+◌, ◌≡◌, refl, sym, ap, ◌∙◌, ◌⊎◌, inl, inr, Bool, true, false, List, [], ◌∷◌, ◌++◌, map,
  arith, ◌==◌, if◌then◌else◌, Bool-cases, any, All, append-nil, append_assoc, subst,
}
use secure_mcp.Errors.{Outcome, value, raised}
use secure_mcp.Tools.{
  nothing, read_document, after_open, Files, Trace, put, split, is_hidden, is_denied, after_open,
  is_last, open_chain,
}

-- A part that names a visible entry of the directory that it is opened below.
pub record IsSafe (part : List ℕ) : Type 0 where
  pub visible : is_hidden part ≡ false
  pub no_slash : any (λ c. c == b'/') part ≡ false
  pub no_backslash : any (λ c. c == b'\\') part ≡ false
  pub no_nul : any (λ c. c == 0) part ≡ false

put-All :
    (q : ℕ → Bool) (c : ℕ) (parts : List (List ℕ))
    → q c ≡ false
    → All (λ part. any q part ≡ false) parts
    → All (λ part. any q part ≡ false) (put c parts)
put-All q c [] h a = (ground arith, tt)
put-All q c (p ∷ ps) h (a, as') = (ground arith, as')

split-All :
    (q : ℕ → Bool) (path : List ℕ)
    → any q path ≡ false
    → All (λ part. any q part ≡ false) (split path)
split-All q [] h = (refl, tt)
split-All q (c ∷ cs) h = elim (Bool-cases (c == b'/')) [
  | inl e ↦ simp e (refl, split-All q cs (ground arith))
  | inr e ↦ simp e (put-All q c (split cs) (ground arith) (split-All q cs (ground arith)))
]

split-no_slash : (path : List ℕ) → All (λ part. any (λ c. c == b'/') part ≡ false) (split path)
split-no_slash [] = (refl, tt)
split-no_slash (c ∷ cs) = elim (Bool-cases (c == b'/')) [
  | inl e ↦ simp e (refl, split-no_slash cs)
  | inr e ↦ simp e (put-All (λ c. c == b'/') c (split cs) e (split-no_slash cs))
]

visible_parts :
    (parts : List (List ℕ)) → any is_hidden parts ≡ false → All (λ p. is_hidden p ≡ false) parts
visible_parts [] h = tt
visible_parts (p ∷ ps) h = (ground arith, visible_parts ps (ground arith))

All-IsSafe :
    (parts : List (List ℕ))
    → All (λ p. is_hidden p ≡ false) parts
    → All (λ part. any (λ c. c == b'/') part ≡ false) parts
    → All (λ part. any (λ c. c == b'\\') part ≡ false) parts
    → All (λ part. any (λ c. c == 0) part ≡ false) parts
    → All IsSafe parts
All-IsSafe [] a b c d = tt
All-IsSafe (p ∷ ps) (a, as') (b, bs) (c, cs) (d, ds) =
    (record { visible = a; no_slash = b; no_backslash = c; no_nul = d }, All-IsSafe ps as' bs cs ds)

split-IsSafe : (path : List ℕ) → is_denied path ≡ false → All IsSafe (split path)
unfolding is_denied
split-IsSafe path h =
    All-IsSafe (split path) (visible_parts (split path) (ground arith)) (split-no_slash path)
      (split-All _ path (ground arith)) (split-All _ path (ground arith))

abbrev pub parents : Trace → List ℕ
parents t = map (λ (a : ℕ × List ℕ). a.0) t.asked

abbrev pub names : Trace → List (List ℕ)
names t = map (λ (a : ℕ × List ℕ). a.1) t.asked

-- What was asked so far: the parts of a path from its start, each below the handle that the part
-- before it gave, the first below the root.
pub record Descends (root : ℕ) (parts : List (List ℕ)) (t : Trace) : Type 0 where
  pub in_order : (rest : List (List ℕ)) × (names t ++ rest ≡ parts)
  pub below : (rest : List ℕ) × (parents t ++ rest ≡ root ∷ t.opened)

map-snoc :
    {A B : Type 0} (g : A → B) (xs : List A) (x : A) → map g (xs ++ x ∷ []) ≡ map g xs ++ g x ∷ []
map-snoc g [] x = refl
map-snoc g (y ∷ xs) x = ap (λ ys. g y ∷ ys) (map-snoc g xs x)

if_chain :
    (b : Bool) (P : Outcome ℕ × Trace → Type 0) (x y : Outcome ℕ × Trace)
    → P x
    → P y
    → P (if b then x else y)
if_chain true P x y p q = p
if_chain false P x y p q = q

after_open_case :
    (t : Trace) (continue : ℕ → Trace → Outcome ℕ × Trace) (o : Outcome ℕ)
    (P : Outcome ℕ × Trace → Type 0)
    → ((o' : Outcome ℕ) → P (o', t))
    → ((h : ℕ) → P (continue h (record t { opened = t.opened ++ h ∷ [] })))
    → P (after_open t continue o)
after_open_case t continue (raised e) P p q = p (raised e)
after_open_case t continue (value h) P p q = q h

open_chain-Descends :
    (f : Files) (parent index : ℕ) (parts all_parts : List (List ℕ)) (t : Trace)
    → names t ++ parts ≡ all_parts
    → parents t ++ parent ∷ [] ≡ f.root ∷ t.opened
    → Descends f.root all_parts (open_chain f parent index parts t).1
unfolding open_chain
open_chain-Descends f parent index [] all_parts t h k = record {
  in_order = ([], h);
  below = (parent ∷ [], k);
}
open_chain-Descends f parent index (part ∷ parts) all_parts t h k =
    if_chain (f.opening_aborted index) (λ r. Descends f.root all_parts r.1) _ _
      (record { in_order = (part ∷ parts, h); below = (parent ∷ [], k) })
      (after_open_case _ (λ h' t'. open_chain f h' (index + 1) parts t')
        (f.open_at parent part (is_last parts)) (λ r. Descends f.root all_parts r.1)
        (λ _. record { in_order = (parts, named); below = ([], append-nil _ ∙ held) })
        (λ h'.
          open_chain-Descends f h' (index + 1) parts all_parts _ named
            (ap (λ xs. xs ++ h' ∷ []) held)))
  where
    named : map (λ (a : ℕ × List ℕ). a.1) (t.asked ++ (parent, part) ∷ []) ++ parts ≡ all_parts
    named = rw (map-snoc (λ (a : ℕ × List ℕ). a.1) t.asked (parent, part), append_assoc) h

    held : map (λ (a : ℕ × List ℕ). a.0) (t.asked ++ (parent, part) ∷ []) ≡ f.root ∷ t.opened
    held = map-snoc (λ (a : ℕ × List ℕ). a.0) t.asked (parent, part) ∙ k

All-prefix : (P : List ℕ → Type 0) (xs ys : List (List ℕ)) → All P (xs ++ ys) → All P xs
All-prefix P [] ys a = tt
All-prefix P (x ∷ xs) ys (p, a) = (p, All-prefix P xs ys a)

-- All that the tool asks to open is a start of the path's own parts, in their order, each below the
-- handle that the one before gave and the first below the root; each such part is visible and holds
-- no separator, backslash or NUL, so it never names the parent; a denied path asks for nothing; and
-- whatever happens the handles that are closed are exactly those that were opened.
pub read_document-Descends :
    (f : Files) (maximum : ℕ) (path : List ℕ)
    → let r = read_document f maximum path in
      Descends f.root (split path) r.trace
      × All IsSafe (names r.trace)
      × (r.closed ≡ r.trace.opened)
      × ((is_denied path ≡ false) ⊎ (r.trace ≡ nothing))
unfolding read_document
read_document-Descends f m path = elim (Bool-cases (is_denied path)) [
  | inl e ↦
      simp e
        (record { in_order = (split path, refl); below = (f.root ∷ [], refl) }, tt, refl, inr refl)
  | inr e ↦
      let d = open_chain-Descends f f.root 0 (split path) (split path) nothing refl refl in
      let safe =
        All-prefix IsSafe _ d.in_order.0
          (subst (All IsSafe) (sym d.in_order.1) (split-IsSafe path e)) in
      simp e (d, safe, refl, inl refl)
]
