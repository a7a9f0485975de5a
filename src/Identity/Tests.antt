-- ===== src/Identity/Tests.antt =====
-- A token's claims, and the laws at these.
use secure_mcp.Shared.{String, ◌≡◌, refl, Option, none, some, [], ◌∷◌, str_eq, if◌then◌else◌}
use secure_mcp.Policy.{Principal}
use secure_mcp.Identity.{Claims, Issuing, check_claims, verify_token, scopes_of}
use secure_mcp.Identity.Verified.{Vouched, verify_token-Vouched}

abbrev config : Issuing
config = record { issuer = "https://id.test"; max_token_age_seconds = 900 }

abbrev claims : Claims
claims = record {
  typ = some "AT+JWT";
  sub = some "u1";
  scope = some " a:read  b";
  exp = some 1000;
  iat = some 500;
}

abbrev owner : Principal
owner = record {
  subject = "u1";
  issuer = "https://id.test";
  scopes = "a:read" ∷ "b" ∷ [];
  expires_at = some 1000;
}

abbrev jwt : String → Option Claims
jwt token = if str_eq token "abc" then some claims else none

verifications :
    (verify_token jwt config 600000 "abc" ≡ some owner)
    × (verify_token jwt config 600000 "abd" ≡ none)
    × (verify_token jwt config 499999 "abc" ≡ none)
    × (check_claims (record config { max_token_age_seconds = 499 }) 600000 claims ≡ none)
    × (check_claims config 600000 (record claims { typ = some "JWT" }) ≡ none)
    × (check_claims config 600000 (record claims { scope = some "a b%" }) ≡ none)
unfolding verify_token check_claims scopes_of
verifications = (refl, refl, refl, refl, refl, refl)

verify_token-Vouched_example : (c : Claims) × (jwt "abc" ≡ some c) × Vouched config 600000 c owner
verify_token-Vouched_example = verify_token-Vouched jwt config 600000 "abc" owner verifications.0
