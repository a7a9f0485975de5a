-- ===== src/Identity.antt =====
-- src/identity.ts: the checks that the token verifier makes on a token that `jwtVerify` accepts. The
-- verification of the signature is a parameter, which gives the claims. Times are whole seconds.
pub mod Scopes
pub mod Verified
mod Tests
use secure_mcp.Shared.{
  ℕ, ◌+◌, ◌-◌, ◌*◌, String, Bool, true, false, not, ◌&&◌, ◌||◌, Option, none, some, List, [], ◌∷◌,
  map, ltb, leb, ◌==◌, if◌then◌else◌, length, all, any, keep, codes, is_empty, units, is_upper,
  is_alnum,
}
use Prim.Native.Char.{Char, code}
use secure_mcp.Policy.{Principal}

-- The claims that are read; `none` is a missing claim, or one of another type.
pub record Claims : Type 0 where
  pub typ : Option String
  pub sub : Option String
  pub scope : Option String
  pub exp : Option ℕ
  pub iat : Option ℕ

pub record Issuing : Type 0 where
  pub issuer : String
  pub max_token_age_seconds : ℕ

-- `split(' ')`, and without the empty parts.
abbrev pub put : Char → List String → List String
put c [] = String.◌∷◌ c String.[] ∷ []
put c (w ∷ ws) = String.◌∷◌ c w ∷ ws

abbrev pub split : String → List String
split String.[] = String.[] ∷ []
split (String.◌∷◌ c s) = if code c == 32 then String.[] ∷ split s else put c (split s)

abbrev pub not_empty : String → Bool
not_empty s = not (is_empty s)

unfoldable pub scopes_of : String → List String
scopes_of s = keep not_empty (split s)

-- `/^[a-zA-Z0-9:._/-]{1,128}$/`
abbrev pub is_scope_char : ℕ → Bool
is_scope_char c =
    is_alnum c || (c == b':' || (c == b'.' || (c == b'_' || (c == b'/' || c == b'-'))))

abbrev pub is_scope : List ℕ → Bool
is_scope cs = all is_scope_char cs && (leb 1 (length cs) && leb (length cs) 128)

-- `toLowerCase`, as far as it matters for the comparison with a text of ASCII letters.
abbrev pub lowered : ℕ → ℕ
lowered c = if is_upper c then c + 32 else c

abbrev pub same : List ℕ → List ℕ → Bool
same [] [] = true
same (x ∷ xs) (y ∷ ys) = x == y && same xs ys
same _ _ = false

abbrev pub is_access_token : Option String → Bool
is_access_token none = false
is_access_token (some t) =
    let low = map lowered (codes t) in
    same low (codes "at+jwt") || same low (codes "application/at+jwt")

-- `payload.sub.length` and `payload.scope.length` count UTF-16 code units.
abbrev pub is_subject : String → Bool
is_subject s = not_empty s && leb (units (codes s)) 256

-- The first check: `none` is the throw.
abbrev pub is_fresh : Issuing → ℕ → ℕ → ℕ → Bool
is_fresh config now_ms exp iat =
    leb (exp - iat) config.max_token_age_seconds && leb (iat * 1000) now_ms

abbrev pub granted : Issuing → String → ℕ → List String → Option Principal
granted config sub exp scopes =
    if ltb 128 (length scopes) || any (λ s. not (is_scope (codes s))) scopes
    then none
    else some
        (record { subject = sub; issuer = config.issuer; scopes = scopes; expires_at = some exp })

abbrev pub check_parts :
    Issuing → ℕ → Option String → Option String → Option ℕ → Option ℕ → Option Principal
check_parts config now_ms (some sub) (some scope) (some exp) (some iat) =
    if not (is_subject sub)
      || (ltb 4096 (units (codes scope)) || not (is_fresh config now_ms exp iat))
    then none
    else granted config sub exp (scopes_of scope)
check_parts config now_ms _ _ _ _ = none

unfoldable pub check_claims : Issuing → ℕ → Claims → Option Principal
unfolding scopes_of
check_claims config now_ms claims =
    if is_access_token claims.typ
    then check_parts config now_ms claims.sub claims.scope claims.exp claims.iat
    else none

-- The verifier: `jwt` is `jwtVerify` with its options, `none` where it throws.
unfoldable pub verify_token : (String → Option Claims) → Issuing → ℕ → String → Option Principal
unfolding check_claims
verify_token jwt config now_ms token = elim (jwt token) [
  | none ↦ none
  | some claims ↦ check_claims config now_ms claims
]
