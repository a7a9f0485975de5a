-- ===== src/V1/Jwt/Tests.antt =====
-- A service with tokens that are the claims themselves, over a Redis that never fails.
use secure_mcp.Shared.{
  ℕ, ◌≡◌, refl, ap, ◌∙◌, ◌↔◌, true, false, Option, none, some, List, [], ◌∷◌, ◌++◌, map,
  if◌then◌else◌, length, all, take, drop, codes,
}
use secure_mcp.Http.Target.{same}
use secure_mcp.V1.Actions.{ok, thrown, Failure}
use secure_mcp.V1.Redis.Sample.{
  Store, sample, sample_writes, sample_lua, sample_laws, sample-WriteLaws, sample_sets,
  sample_texts, put,
}
use secure_mcp.V1.Lock.{acquire_lock, acquire_loop, release_lock}
use secure_mcp.V1.RateLimiter.{default_config, check_rate_limit, check_script, is_user_blocked}
use secure_mcp.V1.Blacklist.{is_blacklisted, add_to_blacklist}
use secure_mcp.V1.Blacklist.Kept.{CarriesOut}
use secure_mcp.V1.Jwt.Revoking.{enforce_session_limit, family_key, revoke_session}
use secure_mcp.V1.Jwt.{
  JwtPayload, RefreshClaims, RefreshTokenPayload, TokenFamily, FamilyInfo, Library, JwtService,
  text, parse_expires_in, is_valid_token_format, extract_token_from_header,
}
use secure_mcp.V1.Jwt.Tokens.{
  World, Moment, Draw, User, Attempt, generate_token_pair, verify_access_token,
  refresh_access_token, verify_refresh_token, get_user_data, pair_of,
}
use secure_mcp.V1.Jwt.Verified.{IsGood, found_access, after_limit, verify_access_token-IsGood}
use secure_mcp.V1.Jwt.Refreshed.{IsGranted, found_refresh, refresh_access_token-IsGranted}
use secure_mcp.V1.Jwt.Never.{LibraryLaws, refresh_access_token-never}

-- A text behind its length.
abbrev framed : List ℕ → List ℕ → List ℕ
framed x rest = length x ∷ (x ++ rest)

abbrev first : List ℕ → List ℕ
first [] = []
first (n ∷ cs) = take n cs

abbrev others : List ℕ → List ℕ
others [] = []
others (n ∷ cs) = drop n cs

first-framed : (x rest : List ℕ) → first (framed x rest) ≡ x
first-framed [] rest = refl
first-framed (c ∷ x) rest = ap (◌∷◌ c) (first-framed x rest)

others-framed : (x rest : List ℕ) → others (framed x rest) ≡ rest
others-framed [] rest = refl
others-framed (c ∷ x) rest = others-framed x rest

abbrev refresh_text : RefreshClaims → List ℕ
refresh_text c = framed c.sub (framed c.session_id (framed c.token_family (framed c.jti [])))

abbrev refresh_of : List ℕ → RefreshTokenPayload
refresh_of t = record {
  claims = record {
    sub = first t;
    session_id = first (others t);
    token_family = first (others (others t));
    jti = first (others (others (others t)));
  };
  iat = 0;
  exp = 1000;
}

refresh_of-text : (c : RefreshClaims) → (refresh_of (refresh_text c)).claims ≡ c
refresh_of-text c =
    let three = framed c.session_id (framed c.token_family (framed c.jti [])) in
    rw
      (
        others-framed c.sub three,
        others-framed c.session_id (framed c.token_family (framed c.jti [])),
        others-framed c.token_family (framed c.jti []),
        first-framed c.sub three,
        first-framed c.session_id (framed c.token_family (framed c.jti [])),
        first-framed c.token_family (framed c.jti []),
        first-framed c.jti [],
      )
      refl

abbrev family_text : TokenFamily → List ℕ
family_text f = framed f.user_id (framed f.session_id (framed f.jti []))

abbrev parse_family : List ℕ → Option FamilyInfo
parse_family t = some (record {
  user_id = some (first t);
  session_id = some (first (others t));
  jti = some (first (others (others t)));
})

abbrev payload : JwtPayload
payload = record {
  claims = record {
    sub = codes "u";
    email = codes "e";
    roles = [];
    permissions = [];
    session_id = codes "s";
    mfa_verified = false;
    iss = [];
    aud = [];
    jti = 1 ∷ [];
  };
  iat = 0;
  exp = 1000;
}

abbrev library : Library
library = record {
  verify_access =
      λ token secret issuer audience. if same token (codes "access") then some payload else none;
  verify_refresh = λ token secret. some (refresh_of token);
  sign_access = λ claims secret ttl. codes "access";
  sign_refresh = λ claims secret ttl. refresh_text claims;
  decoded_exp = λ token. some 1000;
  family_text = family_text;
  parse_family = parse_family;
  active_text = λ user session at. user;
  parse_list = λ t. none;
  stringify = λ entry. entry.jti;
  parse_entry = λ t. none;
}

parsed-family :
    (f : TokenFamily)
    → parse_family (family_text f)
      ≡ some (record { user_id = some f.user_id; session_id = some f.session_id; jti = some f.jti })
parsed-family f =
    rw
      (
        others-framed f.user_id (framed f.session_id (framed f.jti [])),
        others-framed f.session_id (framed f.jti []),
        first-framed f.user_id (framed f.session_id (framed f.jti [])),
        first-framed f.session_id (framed f.jti []),
        first-framed f.jti [],
      )
      refl

claims_of : (p q : RefreshTokenPayload) → some p ≡ some q → q.claims ≡ p.claims
claims_of p q h = let e : q ≡ p = (cc) in ap (λ (r : RefreshTokenPayload). r.claims) e

library_laws : LibraryLaws library
library_laws = record {
  verify_signed = λ claims secret ttl p h.
      claims_of (refresh_of (refresh_text claims)) p h ∙ refresh_of-text claims;
  parse_written = λ f. parsed-family f;
}

abbrev service : JwtService
service = record {
  access_token_secret = codes "secret";
  refresh_token_secret = codes "secret_refresh";
  access_token_ttl = 900;
  refresh_token_ttl = 604800;
  issuer = codes "i";
  audience = codes "a";
  initialized = true;
}

abbrev world : World Store
world = record {
  redis = sample [];
  sets = sample_sets;
  lua = sample_lua;
  writes = sample_writes;
  limits = default_config;
  library = library;
  service = service;
}

abbrev moment : Moment
moment = record { now = 5 }

abbrev draw : Draw
draw = record {
  moment = moment;
  jti = 1 ∷ [];
  family = codes "f";
  refresh_jti = 2 ∷ [];
  access_jitter = 7;
  refresh_jitter = 9;
}

abbrev user : User
user = record {
  user_id = codes "u";
  email = codes "e";
  roles = [];
  permissions = [];
  session_id = codes "s";
  mfa_verified = false;
}

abbrev attempt : Attempt Store
attempt = record {
  moment = moment;
  draw = draw;
  lock_value = codes "v";
  random = λ n. 3;
  asleep = λ p s. s;
}

abbrev empty : Store
empty k = none

all-true : {A : Type 0} (ws : List A) → all (λ b. b) (map (λ w. true) ws) ≡ true
all-true [] = refl
all-true (w ∷ ws) = all-true ws

carries : CarriesOut sample_writes
carries ws s = (map (λ w. true) ws, refl, all-true ws)

-- The store when the pair is made.
abbrev made : Store
made = (generate_token_pair world user draw empty).1

made_pair : generate_token_pair world user draw empty ≡ (ok (pair_of world user draw), made)
unfolding generate_token_pair check_rate_limit check_script is_user_blocked enforce_session_limit
    revoke_session
made_pair = refl

refresh_access_token-never_example :
    (e : Failure) × ((refresh_access_token world
        (pair_of world user draw).refresh_token
        attempt
        made).0
      ≡ thrown e)
refresh_access_token-never_example =
    refresh_access_token-never world (sample_laws []) (sample_texts []) (sample-WriteLaws [])
      carries library_laws user draw empty made made (pair_of world user draw) attempt made_pair
      refl (λ e. (cc)) (λ e. (cc)) refl (λ p x. refl)

verify_access_token-IsGood_example :
    (verify_access_token world (codes "access") moment made ≡ (ok payload, made)) ↔ (
      (world.service.initialized ≡ true)
      × IsGood world (found_access world (codes "access")) moment made payload
      × (after_limit world payload moment made ≡ made))
verify_access_token-IsGood_example =
    verify_access_token-IsGood world (codes "access") moment made made payload

verified : verify_access_token world (codes "access") moment made ≡ (ok payload, made)
unfolding verify_access_token generate_token_pair check_rate_limit check_script is_user_blocked
    is_blacklisted enforce_session_limit revoke_session
verified = refl

-- A family that names its refresh token.
abbrev other_store : Store
other_store =
    put (family_key (codes "f"))
      (some (
        family_text
          (record { user_id = codes "u"; session_id = codes "s"; created_at = 0; jti = 2 ∷ [] })))
      empty

abbrev refreshed_store : Store
refreshed_store =
    (refresh_access_token world (pair_of world user draw).refresh_token attempt other_store).1

refreshed_pair :
    refresh_access_token world (pair_of world user draw).refresh_token attempt other_store
    ≡ (ok (pair_of world user draw), refreshed_store)
unfolding refresh_access_token verify_refresh_token get_user_data generate_token_pair
    check_rate_limit check_script is_user_blocked is_blacklisted enforce_session_limit
    revoke_session acquire_lock acquire_loop release_lock add_to_blacklist
refreshed_pair = refl

refresh_access_token-IsGranted_example :
    (service.initialized ≡ true)
    × ((p : RefreshTokenPayload) × (found_refresh world (pair_of world user draw).refresh_token
          ≡ some p)
        × IsGranted world p.claims attempt other_store (pair_of world user draw))
refresh_access_token-IsGranted_example =
    refresh_access_token-IsGranted world (pair_of world user draw).refresh_token attempt other_store
      refreshed_store (pair_of world user draw) refreshed_pair

formats :
    (is_valid_token_format (codes "a.b.c") ≡ true)
    × (extract_token_from_header (codes "Bearer abc") ≡ some (codes "abc"))
    × (parse_expires_in (text (codes "15m")) ≡ 900)
    × (parse_expires_in (text (codes "m")) ≡ 0)
unfolding is_valid_token_format extract_token_from_header parse_expires_in
formats = (refl, refl, refl, refl)
