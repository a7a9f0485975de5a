-- ===== src/Identity/Verified.antt =====
-- What the principal of a verified token stands for.
use secure_mcp.Shared.{
  ℕ, ◌+◌, ◌*◌, ◌≤◌, String, ◌≡◌, refl, inl, inr, true, false, not, Option, none, some, List, [],
  ◌∷◌, arith, Option-cases, length, all, any, codes, units, subst,
}
use secure_mcp.Policy.{Principal}
use secure_mcp.Identity.{
  Claims, Issuing, is_access_token, is_subject, is_scope, scopes_of, granted, check_parts,
  check_claims, check_parts, verify_token,
}

-- The claims that a principal stems from, and what they satisfy.
pub record Vouched (config : Issuing) (now_ms : ℕ) (claims : Claims) (p : Principal) : Type 0 where
  pub access_token : is_access_token claims.typ ≡ true
  pub from_issuer : p.issuer ≡ config.issuer
  pub named : (claims.sub ≡ some p.subject) × (is_subject p.subject ≡ true)
  pub scoped :
      (scope : String) × (claims.scope ≡ some scope)
      × (p.scopes ≡ scopes_of scope)
      × (units (codes scope) ≤ 4096)
  pub scopes_valid : (all (λ s. is_scope (codes s)) p.scopes ≡ true) × (length p.scopes ≤ 128)
  pub lifetime :
      (exp : ℕ) × (iat : ℕ) × (claims.exp ≡ some exp)
      × (claims.iat ≡ some iat)
      × (p.expires_at ≡ some exp)
      × (exp ≤ iat + config.max_token_age_seconds)
      × (iat * 1000 ≤ now_ms)

any-all :
    (ss : List String)
    → any (λ s. not (is_scope (codes s))) ss ≡ false
    → all (λ s. is_scope (codes s)) ss ≡ true
any-all [] h = refl
any-all (s ∷ ss) h = let rest = any-all ss in ground (arith, rest)

granted_cases :
    (config : Issuing) (sub : String) (exp : ℕ) (scopes : List String) (p : Principal)
    → granted config sub exp scopes ≡ some p
    → (record { subject = sub; issuer = config.issuer; scopes = scopes; expires_at = some exp } ≡ p)
      × (all (λ s. is_scope (codes s)) scopes ≡ true)
      × (length scopes ≤ 128)
granted_cases config sub exp scopes p h =
    let a = any-all scopes in (ground arith, ground (arith, a), ground arith)

-- The four claims that were read, as they stand in a token.
record Parts (config : Issuing) (now_ms : ℕ) (sub scope : Option String) (exp iat : Option ℕ)
    (p : Principal) : Type 0 where
  named : (sub ≡ some p.subject) × (is_subject p.subject ≡ true)
  scoped : (s : String) × (scope ≡ some s) × (p.scopes ≡ scopes_of s) × (units (codes s) ≤ 4096)
  scopes_valid : (all (λ s. is_scope (codes s)) p.scopes ≡ true) × (length p.scopes ≤ 128)
  from_issuer : p.issuer ≡ config.issuer
  lifetime :
      (e : ℕ) × (i : ℕ) × (exp ≡ some e)
      × (iat ≡ some i)
      × (p.expires_at ≡ some e)
      × (e ≤ i + config.max_token_age_seconds)
      × (i * 1000 ≤ now_ms)

check_parts-Parts :
    (config : Issuing) (now_ms : ℕ) (sub scope : Option String) (exp iat : Option ℕ) (p : Principal)
    → check_parts config now_ms sub scope exp iat ≡ some p
    → Parts config now_ms sub scope exp iat p
check_parts-Parts config now_ms (some sub) (some scope) (some exp) (some iat) p h =
    let g : granted config sub exp (scopes_of scope) ≡ some p = ground (arith, h) in
    let (made, valid, few) = granted_cases config sub exp (scopes_of scope) p g in
    subst (Parts config now_ms (some sub) (some scope) (some exp) (some iat)) made (record {
      named = (refl, ground arith);
      scoped = (scope, refl, refl, ground arith);
      scopes_valid = (valid, few);
      from_issuer = refl;
      lifetime = (exp, iat, refl, refl, refl, ground arith, ground arith);
    })
check_parts-Parts config now_ms none scope exp iat p h = absurd (cc)
check_parts-Parts config now_ms (some sub) none exp iat p h = absurd (cc)
check_parts-Parts config now_ms (some sub) (some scope) none iat p h = absurd (cc)
check_parts-Parts config now_ms (some sub) (some scope) (some exp) none p h = absurd (cc)

check_claims-Vouched :
    (config : Issuing) (now_ms : ℕ) (claims : Claims) (p : Principal)
    → check_claims config now_ms claims ≡ some p
    → Vouched config now_ms claims p
unfolding check_claims
check_claims-Vouched config now_ms claims p h =
    let parts =
      check_parts-Parts config now_ms claims.sub claims.scope claims.exp claims.iat p
        (ground (arith, h)) in
    record {
      access_token = ground (arith, h);
      from_issuer = parts.from_issuer;
      named = parts.named;
      scoped = parts.scoped;
      scopes_valid = parts.scopes_valid;
      lifetime = parts.lifetime;
    }

-- A principal comes from a token only if the token's signature and standard claims were verified, and
-- the verified claims vouch for it: the token is an access token, the subject is not empty and is the
-- token's, the issuer is the configured one, the scopes are the valid words of the scope claim and no
-- more than 128, the expiry is the token's, and the token was not issued in the future or for longer
-- than the configured age.
pub verify_token-Vouched :
    (jwt : String → Option Claims) (config : Issuing) (now_ms : ℕ) (token : String) (p : Principal)
    → verify_token jwt config now_ms token ≡ some p
    → (claims : Claims) × (jwt token ≡ some claims) × Vouched config now_ms claims p
unfolding verify_token
verify_token-Vouched jwt config now_ms token p h = elim (Option-cases (jwt token)) [
  | inl e ↦ absurd (ground arith)
  | inr (claims, e) ↦
      (claims, e, check_claims-Vouched config now_ms claims p (ground (arith, e, h)))
]
