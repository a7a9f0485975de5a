-- ===== src/V1/Jwt.antt =====
-- legacy/v1/src/auth/jwt-service.ts: the data of JWTService, what it is given, and its methods that
-- touch no store. A time is in milliseconds, a time to live in seconds, a text its UTF-16 code units.
pub mod Revoking
pub mod Tokens
pub mod Verified
pub mod Refreshed
pub mod Kept
pub mod Never
mod Tests
use secure_mcp.Shared.{
  ℕ, zero, suc, ◌+◌, ◌-◌, ◌*◌, ◌/◌, ◌%◌, ◌≤◌, ◌<◌, min, max, String, ◌≡◌, refl, sym, ap, ◌∙◌, ◌≢◌,
  ◌↔◌, ◌⊎◌, inl, inr, Bool, true, false, not, ◌&&◌, ◌||◌, Option, none, some, List, [], ◌∷◌, ◌++◌,
  map, arith, str_eq, eq_iff, ltb, leb, ◌==◌, if◌then◌else◌, ltb→lt, lt→ltb, leb→le, le→leb, ==_iff,
  Bool-cases, Option-cases, Bool-eq_of_iff, and_intro, and_left, and_right, length, all, any, keep,
  length-append, length-keep-le, take, drop, get_elem?, All, All-append, all-All, All-all, All-mono,
  In, In-append, In-append_right, codes, bit_and_31, bit_or_byte, includes, includes_iff, is_empty,
  units, is_lower, is_upper, is_digit, is_alnum, modify_at, tally, tally-append, tally-modify_at-le,
  All-modify_at, All-get_elem?, take-add, take_all, take-append_drop, length-drop, take-append,
  take-nil, drop-nil, drop-add, append-nil, append_assoc, ap₂, subst, some-injective,
}
use secure_mcp.Http.Target.{starts_with}
use secure_mcp.V1.Blacklist.{BlacklistEntry}

pub record AccessClaims : Type 0 where
  pub sub : List ℕ
  pub email : List ℕ
  pub roles : List (List ℕ)
  pub permissions : List (List ℕ)
  pub session_id : List ℕ
  pub mfa_verified : Bool
  pub iss : List ℕ
  pub aud : List ℕ
  pub jti : List ℕ

pub record JwtPayload : Type 0 where
  pub claims : AccessClaims
  pub iat : ℕ
  pub exp : ℕ

pub record RefreshClaims : Type 0 where
  pub sub : List ℕ
  pub session_id : List ℕ
  pub token_family : List ℕ
  pub jti : List ℕ

pub record RefreshTokenPayload : Type 0 where
  pub claims : RefreshClaims
  pub iat : ℕ
  pub exp : ℕ

pub record TokenPair : Type 0 where
  pub access_token : List ℕ
  pub refresh_token : List ℕ
  pub expires_in : ℕ
  pub refresh_expires_in : ℕ

-- What is stored for a token family, and what JSON.parse makes of a stored text: a field may be missing.
pub record TokenFamily : Type 0 where
  pub user_id : List ℕ
  pub session_id : List ℕ
  pub created_at : ℕ
  pub jti : List ℕ

pub record FamilyInfo : Type 0 where
  pub user_id : Option (List ℕ)
  pub session_id : Option (List ℕ)
  pub jti : Option (List ℕ)

-- The calls of jsonwebtoken and of JSON; `none` is a throw. `verify_access token secret issuer audience`
-- and `verify_refresh token secret` are `jwt.verify` with the algorithm HS256.
pub record Library : Type 0 where
  pub verify_access : List ℕ → List ℕ → List ℕ → List ℕ → Option JwtPayload
  pub verify_refresh : List ℕ → List ℕ → Option RefreshTokenPayload
  pub sign_access : AccessClaims → List ℕ → ℕ → List ℕ
  pub sign_refresh : RefreshClaims → List ℕ → ℕ → List ℕ
  -- `jwt.decode(token)` and its `exp`.
  pub decoded_exp : List ℕ → Option ℕ
  pub family_text : TokenFamily → List ℕ
  pub parse_family : List ℕ → Option FamilyInfo
  pub active_text : List ℕ → List ℕ → ℕ → List ℕ
  pub parse_list : List ℕ → Option (List (List ℕ))
  pub stringify : BlacklistEntry → List ℕ
  pub parse_entry : List ℕ → Option BlacklistEntry

pub data ExpiresIn : Type 0 where
  number : ℕ → ExpiresIn
  text : List ℕ → ExpiresIn

-- The part after the digits of `/^(\d+)([smhd]?)$/`, and its factor.
abbrev pub in_unit : ℕ → List ℕ → ℕ
in_unit value [] = value
in_unit value (c ∷ []) =
    if c == b's'
    then value
    else if c == b'm'
    then value * 60
    else if c == b'h'
    then value * 3600
    else if c == b'd'
    then value * 86400
    else 0
in_unit value _ = 0

-- After a first digit.
abbrev pub from_digits : ℕ → List ℕ → ℕ
from_digits value [] = value
from_digits value (c ∷ cs) =
    let more = from_digits (value * 10 + (c - b'0')) cs in
    if is_digit c then more else in_unit value (c ∷ cs)

abbrev pub starts_digit : List ℕ → Bool
starts_digit [] = false
starts_digit (c ∷ cs) = is_digit c

unfoldable pub parse_expires_in : ExpiresIn → ℕ
parse_expires_in (number n) = n
parse_expires_in (text cs) = if starts_digit cs then from_digits 0 cs else 0

pub record JwtService : Type 0 where
  pub access_token_secret : List ℕ
  pub refresh_token_secret : List ℕ
  pub access_token_ttl : ℕ
  pub refresh_token_ttl : ℕ
  pub issuer : List ℕ
  pub audience : List ℕ
  pub initialized : Bool

abbrev pub max_concurrent_sessions : ℕ
max_concurrent_sessions = 5

unfoldable pub constructed : List ℕ → ExpiresIn → ExpiresIn → List ℕ → List ℕ → JwtService
constructed secret access_expires refresh_expires issuer audience = record {
  access_token_secret = secret;
  refresh_token_secret = secret ++ codes "_refresh";
  access_token_ttl = parse_expires_in access_expires;
  refresh_token_ttl = parse_expires_in refresh_expires;
  issuer = issuer;
  audience = audience;
  initialized = false;
}

-- A secret that the vault has, if it is not empty, in place of the present one.
abbrev pub or_secret : Option (List ℕ) → List ℕ → List ℕ
or_secret (some (c ∷ cs)) secret = c ∷ cs
or_secret _ secret = secret

abbrev pub VaultReply : Type 0
VaultReply = Option (Option (List ℕ) × Option (List ℕ))

-- `vault` is the reply of `vault.read`: `none` is a throw, after which it throws too.
unfoldable pub initialize : Bool → VaultReply → JwtService → Option JwtService
initialize false vault service = some (record {
  access_token_secret = service.access_token_secret;
  refresh_token_secret = service.refresh_token_secret;
  access_token_ttl = service.access_token_ttl;
  refresh_token_ttl = service.refresh_token_ttl;
  issuer = service.issuer;
  audience = service.audience;
  initialized = true;
})
initialize true none service = none
initialize true (some (access, refresh)) service = some (record {
  access_token_secret = or_secret access service.access_token_secret;
  refresh_token_secret = or_secret refresh service.refresh_token_secret;
  access_token_ttl = service.access_token_ttl;
  refresh_token_ttl = service.refresh_token_ttl;
  issuer = service.issuer;
  audience = service.audience;
  initialized = true;
})

unfoldable pub extract_token_from_header : List ℕ → Option (List ℕ)
extract_token_from_header header =
    if starts_with (codes "Bearer ") header then some (drop 7 header) else none

-- `token.split('.')` has three parts; `Buffer.from` does not throw.
unfoldable pub is_valid_token_format : List ℕ → Bool
is_valid_token_format token = tally (λ c. c == b'.') token == 2

-- An `exp` of 0 counts as none.
unfoldable pub get_token_expiry : Library → List ℕ → Option ℕ
get_token_expiry library token = elim (library.decoded_exp token) [
  | none ↦ none
  | some exp ↦ if exp == 0 then none else some (exp * 1000)
]

unfoldable pub is_token_expired : Library → ℕ → List ℕ → Bool
is_token_expired library now token = elim (get_token_expiry library token) [
  | none ↦ true
  | some expiry ↦ ltb expiry now
]
