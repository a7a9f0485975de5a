-- ===== src/Audit/Actor.antt =====
-- The actor of an event identifies the principal, up to collisions of the hash.
use secure_mcp.Shared.{ℕ, String, ◌≡◌, refl, sym, ◌≢◌, List, [], ◌∷◌, ◌++◌, arith, All, codes, ap₂}
use Prim.Native.Char.{code}
use text.Mathlib.TextEquality.{Char-path}
use secure_mcp.Policy.{Principal}
use secure_mcp.Audit.{audit_context, actor_input}

cons_parts : (x y : ℕ) (xs ys : List ℕ) → x ∷ xs ≡ y ∷ ys → (x ≡ y) × (xs ≡ ys)
cons_parts x y xs ys e = ground arith

codes-injective : (s t : String) → codes s ≡ codes t → s ≡ t
codes-injective String.[] String.[] e = refl
codes-injective String.[] (String.◌∷◌ d t) e = absurd (cc)
codes-injective (String.◌∷◌ c s) String.[] e = absurd (cc)
codes-injective (String.◌∷◌ c s) (String.◌∷◌ d t) e =
    let (same, rest) = cons_parts (code c) (code d) (codes s) (codes t) e in
    ap₂ String.◌∷◌ (Char-path c d same) (codes-injective s t rest)

-- Texts without a NUL can be told apart from what follows the first NUL.
split_at_nul :
    (xs ys us vs : List ℕ)
    → All (λ c. c ≢ 0) xs
    → All (λ c. c ≢ 0) ys
    → xs ++ 0 ∷ us ≡ ys ++ 0 ∷ vs
    → (xs ≡ ys) × (us ≡ vs)
split_at_nul [] [] us vs h k e = (refl, (cons_parts 0 0 us vs e).1)
split_at_nul [] (y ∷ ys) us vs h (n, k) e = absurd (n (sym (cons_parts 0 y us (ys ++ 0 ∷ vs) e).0))
split_at_nul (x ∷ xs) [] us vs (n, h) k e = absurd (n (cons_parts x 0 (xs ++ 0 ∷ us) vs e).0)
split_at_nul (x ∷ xs) (y ∷ ys) us vs (_, h) (_, k) e =
    let (same, rest) = cons_parts x y (xs ++ 0 ∷ us) (ys ++ 0 ∷ vs) e in
    let (heads, tails) = split_at_nul xs ys us vs h k rest in (ap₂ ◌∷◌ same heads, tails)

-- Two principals whose issuers hold no NUL character have the same actor only if they have the same
-- issuer and the same subject, provided that the hash tells their two inputs apart.
pub audit_context-injective :
    (sha256 : List ℕ → String) (p q : Principal) (name other request_id request_id' : String)
    → All (λ c. c ≢ 0) (codes p.issuer)
    → All (λ c. c ≢ 0) (codes q.issuer)
    → (sha256 (actor_input p) ≡ sha256 (actor_input q) → actor_input p ≡ actor_input q)
    → (audit_context sha256 p name request_id).actor
      ≡ (audit_context sha256 q other request_id').actor
    → (p.issuer ≡ q.issuer) × (p.subject ≡ q.subject)
unfolding audit_context
audit_context-injective sha256 p q name other r r' h k distinct e =
    let (issuers, subjects) =
      split_at_nul (codes p.issuer) (codes q.issuer) (codes p.subject) (codes q.subject) h k
        (distinct e) in
    (codes-injective _ _ issuers, codes-injective _ _ subjects)
