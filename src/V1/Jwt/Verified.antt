-- ===== src/V1/Jwt/Verified.antt =====
-- When an access token is accepted.
use secure_mcp.Shared.{ℕ, ◌≡◌, refl, ◌↔◌, true, false, not, Option, none, some, List, subst}
use secure_mcp.V1.Actions.{ok, throw_if-ok, replied-ok, handled-ok, pure-ok, not-false}
use secure_mcp.V1.RateLimiter.{validate, check_rate_limit}
use secure_mcp.V1.Blacklist.{is_truthy, is_blacklisted, blacklist_key}
use secure_mcp.V1.Jwt.{JwtPayload}
use secure_mcp.V1.Jwt.Revoking.{active_key}
use secure_mcp.V1.Jwt.Tokens.{World, Moment, verify_access_token, checked_access}

module _ {S : Type 0} (w : World S) where
  -- That a token is good: `found` is the payload, the limiter lets the user through, and then the token is not
  -- blacklisted and its key holds a text.
  abbrev pub IsGood : Option JwtPayload → Moment → S → JwtPayload → Type 0
  IsGood found moment s p =
      let limit =
        check_rate_limit w.redis w.sets w.lua w.limits p.claims.sub validate moment.now s in
      (found ≡ some p)
      × (limit.0.allowed ≡ true)
      × (w.redis.get (blacklist_key p.claims.jti) limit.1 ≡ some none)
      × ((text : Option (List ℕ)) × (w.redis.get (active_key p.claims.jti) limit.1 ≡ some text)
          × (is_truthy text ≡ true))

  abbrev pub after_limit : JwtPayload → Moment → S → S
  after_limit p moment s =
      (check_rate_limit w.redis w.sets w.lua w.limits p.claims.sub validate moment.now s).1

  not_listed :
      (jti : List ℕ) (s : S)
      → is_blacklisted w.redis w.writes w.library.stringify w.library.parse_entry jti s ≡ false
      → w.redis.get (blacklist_key jti) s ≡ some none
  unfolding is_blacklisted
  not_listed jti s h = go (w.redis.get (blacklist_key jti) s) h
    where
      go :
          (reply : Option (Option (List ℕ)))
          → (elim reply [ none ↦ true | some none ↦ false | some (some entry) ↦ true ]) ≡ false
          → reply ≡ some none
      go none h = absurd (cc)
      go (some none) h = refl
      go (some (some entry)) h = absurd (cc)

  checked_access-IsGood :
      (found : Option JwtPayload) (moment : Moment) (s last : S) (payload : JwtPayload)
      → checked_access w found moment s ≡ (ok payload, last)
      → IsGood found moment s payload × (after_limit payload moment s ≡ last)
  checked_access-IsGood none moment s last payload h = absurd (cc)
  checked_access-IsGood (some p) moment s last payload h =
      let limit =
        check_rate_limit w.redis w.sets w.lua w.limits p.claims.sub validate moment.now s in
      let (allowed, h1) = throw_if-ok (not limit.0.allowed) _ limit.1 _ last payload h in
      let (free, h2) =
        throw_if-ok
          (is_blacklisted w.redis w.writes w.library.stringify w.library.parse_entry p.claims.jti
            limit.1)
          _ limit.1 _ last payload h1 in
      let (text, found', h3) =
        replied-ok (w.redis.get (active_key p.claims.jti) limit.1) limit.1 _ last payload h2 in
      let (active, h4) = throw_if-ok (not (is_truthy text)) _ limit.1 _ last payload h3 in
      let (same_payload, same_store) = pure-ok p payload limit.1 last h4 in
      subst (λ q. IsGood (some p) moment s q × (after_limit q moment s ≡ last)) same_payload
        (
          (
            refl,
            not-false limit.0.allowed allowed,
            not_listed p.claims.jti limit.1 free,
            (text, found', not-false (is_truthy text) active),
          ),
          same_store,
        )

  good_checked :
      (found : Option JwtPayload) (moment : Moment) (s : S) (payload : JwtPayload)
      → IsGood found moment s payload
      → checked_access w found moment s ≡ (ok payload, after_limit payload moment s)
  unfolding is_blacklisted
  good_checked found moment s payload (verified, allowed, free, (text, found', active)) =
      rw (verified, allowed, is_blacklisted, free, found', active) refl

  abbrev pub found_access : List ℕ → Option JwtPayload
  found_access token =
      w.library.verify_access token w.service.access_token_secret w.service.issuer
        w.service.audience

  -- An access token is accepted, with a payload, exactly if the service is initialized, `jwt.verify`
  -- gives that payload, the limiter lets its user validate, and then GET answers both that the token is
  -- not blacklisted and that its active key holds a text that is not empty; the store is then as the
  -- limiter left it.
  pub verify_access_token-IsGood :
      (token : List ℕ) (moment : Moment) (s last : S) (payload : JwtPayload)
      → (verify_access_token w token moment s ≡ (ok payload, last)) ↔ (
          (w.service.initialized ≡ true)
          × IsGood (found_access token) moment s payload
          × (after_limit payload moment s ≡ last))
  unfolding verify_access_token
  verify_access_token-IsGood token moment s last payload = (
    λ h.
        let (ready, h1) = throw_if-ok (not w.service.initialized) _ s _ last payload h in
        let (good, same_store) =
          checked_access-IsGood (found_access token) moment s last payload
            (handled-ok (checked_access w (found_access token) moment s) _ last payload h1) in
        (not-false w.service.initialized ready, good, same_store),
    λ (ready, good, same_store).
        rw
          (
            verify_access_token,
            ready,
            good_checked (found_access token) moment s payload good,
            same_store,
          )
          refl,
  )
