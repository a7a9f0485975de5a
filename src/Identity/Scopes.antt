-- ===== src/Identity/Scopes.antt =====
-- The scopes that a scope claim is split into.
use secure_mcp.Shared.{
  ℕ, String, ◌≡◌, refl, ap, ◌∙◌, inl, inr, Bool, true, false, not, List, [], ◌∷◌, ◌++◌, arith, ◌==◌,
  Bool-cases, any, keep, All, codes,
}
use Prim.Native.Char.{Char, code}
use secure_mcp.Identity.{put, split, scopes_of, not_empty}

-- The code points of a list of texts, one text after the other.
abbrev pub joined : List String → List ℕ
joined [] = []
joined (w ∷ ws) = codes w ++ joined ws

abbrev pub is_space : ℕ → Bool
is_space c = c == 32

joined-put : (c : Char) (ws : List String) → joined (put c ws) ≡ code c ∷ joined ws
joined-put c [] = refl
joined-put c (w ∷ ws) = refl

joined-split : (s : String) → joined (split s) ≡ keep (λ c. not (is_space c)) (codes s)
joined-split String.[] = refl
joined-split (String.◌∷◌ c s) = ground (arith, joined-split s, joined-put c (split s))

joined-keep : (ws : List String) → joined (keep not_empty ws) ≡ joined ws
joined-keep [] = refl
joined-keep (String.[] ∷ ws) = joined-keep ws
joined-keep (String.◌∷◌ c s ∷ ws) = ap (λ cs. codes (String.◌∷◌ c s) ++ cs) (joined-keep ws)

abbrev pub Unspaced : String → Type 0
Unspaced s = any is_space (codes s) ≡ false

put-Unspaced :
    (c : Char) (ws : List String)
    → (code c == 32) ≡ false
    → All Unspaced ws
    → All Unspaced (put c ws)
put-Unspaced c [] h a = (ground arith, tt)
put-Unspaced c (w ∷ ws) h (u, a) = (ground arith, a)

split-Unspaced : (s : String) → All Unspaced (split s)
split-Unspaced String.[] = (refl, tt)
split-Unspaced (String.◌∷◌ c s) = elim (Bool-cases (code c == 32)) [
  | inl e ↦ simp e (refl, split-Unspaced s)
  | inr e ↦ simp e (put-Unspaced c (split s) e (split-Unspaced s))
]

abbrev pub IsWord : String → Type 0
IsWord s = (not_empty s ≡ true) × Unspaced s

keep-IsWord : (ws : List String) → All Unspaced ws → All IsWord (keep not_empty ws)
keep-IsWord [] a = tt
keep-IsWord (String.[] ∷ ws) (u, a) = keep-IsWord ws a
keep-IsWord (String.◌∷◌ c s ∷ ws) (u, a) = ((refl, u), keep-IsWord ws a)

-- The scopes of a claim are its words: none is empty or holds a space, and one after the other they
-- are the claim without its spaces.
pub scopes_of_words :
    (s : String)
    → All IsWord (scopes_of s) × (joined (scopes_of s) ≡ keep (λ c. not (is_space c)) (codes s))
unfolding scopes_of
scopes_of_words s =
    (keep-IsWord (split s) (split-Unspaced s), joined-keep (split s) ∙ joined-split s)
