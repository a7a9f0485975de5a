-- ===== src/V1/Jwt/Refreshed.antt =====
-- What a refresh has checked, and what it gives.
use secure_mcp.Shared.{
  ℕ, ◌+◌, ◌≡◌, refl, sym, ap, ◌∙◌, Bool, true, false, not, Option, none, some, List, [], ◌∷◌, ◌++◌,
  codes, subst,
}
use secure_mcp.V1.Actions.{
  Failure, thrown, Result, ok, Method, after, throw, parsed_or, bind-ok, throw_if-ok, replied-ok,
  handled-ok, pure-ok, not-false,
}
use secure_mcp.V1.RateLimiter.{
  RateLimitResult, refresh, generate, check_rate_limit, is_user_blocked,
}
use secure_mcp.V1.Lock.{DistributedLock, Acquisition, held, gave_up, failed, acquire_lock}
use secure_mcp.V1.Blacklist.{is_truthy, add_to_blacklist}
use secure_mcp.V1.Jwt.{RefreshClaims, RefreshTokenPayload, TokenPair, FamilyInfo}
use secure_mcp.V1.Jwt.Revoking.{
  invalidate_token_family, family_key, enforce_session_limit, blacklist_for_a_day,
}
use secure_mcp.V1.Redis.Writes.{del}
use secure_mcp.V1.Jwt.Tokens.{
  refreshed, Attempt, World, Draw, User, pair_of, pair_writes, generate_token_pair, get_user_data,
  list_of, field, or_empty, is_replayed, refuse_replay, exchanged, exchange, exchange_locked,
  refresh_access_token, verify_refresh_token, checked_refresh, lock_name, refresh_options, Attempt,
}

thrown_after :
    {S A B : Type 0} (r : Result Unit × S) (e : Failure) (f : A → Method S B) (last : S) (b : B)
    → after (after r (λ _. throw e)) f ≡ (ok b, last)
    → ⊥
thrown_after (ok a, s) e f last b h = (cc)
thrown_after (thrown x, s) e f last b h = (cc)

finished : {A S : Type 0} {a : A} (r : Result A × S) → r.0 ≡ ok a → r ≡ (ok a, r.1)
finished r h = ap (λ x. (x, r.1)) h

checked :
    {S : Type 0} (w : World S) (found : Option RefreshTokenPayload) (s last : S)
    (payload : RefreshTokenPayload)
    → checked_refresh w found s ≡ (ok payload, last)
    → (found ≡ some payload) × (s ≡ last)
checked w none s last payload h = absurd (cc)
checked w (some p) s last payload h =
    let (text, _, h1) =
      replied-ok (w.redis.get (family_key p.claims.token_family) s) s _ last payload h in
    let (_, h2) = throw_if-ok (not (is_truthy text)) _ s _ last payload h1 in
    let (same_payload, same_store) = pure-ok p payload s last h2 in
    (ap some same_payload, same_store)

module _ {S : Type 0} (w : World S) where
  -- A pair that is made is the one for the user and the random values, and its pipeline comes last.
  pub generate_token_pair-ok :
      (user : User) (draw : Draw) (s last : S) (pair : TokenPair)
      → generate_token_pair w user draw s ≡ (ok pair, last)
      → (pair_of w user draw ≡ pair)
        × ((before : S) × ((w.writes.exec (pair_writes w user draw) before).1 ≡ last))
  unfolding generate_token_pair
  generate_token_pair-ok user draw s last pair h =
      let limit =
        check_rate_limit w.redis w.sets w.lua w.limits user.user_id generate draw.moment.now s in
      let (_, h1) = throw_if-ok (not w.service.initialized) _ s _ last pair h in
      let (_, h2) = throw_if-ok (not limit.0.allowed) _ limit.1 _ last pair h1 in
      let (_, h3) =
        throw_if-ok (is_user_blocked w.redis w.sets w.lua user.user_id limit.1) _ limit.1 _ last
          pair h2 in
      let (_, s4, _, h4) =
        bind-ok (enforce_session_limit w.redis w.writes w.library limit.1) _ last pair h3 in
      let (_, _, h5) = replied-ok (w.writes.exec (pair_writes w user draw) s4).0 _ _ last pair h4 in
      let (same_pair, same_store) = pure-ok (pair_of w user draw) pair _ last h5 in
      (same_pair, (s4, same_store))

  -- The user whose data is read is the one of the token.
  get_user_data-ok :
      (user session : List ℕ) (s last : S) (found : User)
      → get_user_data w user session s ≡ (ok found, last)
      → (found.user_id ≡ user) × (found.session_id ≡ session)
  unfolding get_user_data
  get_user_data-ok user session s last found h =
      let (fields, _, h1) =
        replied-ok (w.writes.hgetall (codes "user:" ++ user) s) s _ last found h in
      let (roles, s2, _, h2) =
        bind-ok (list_of w (field (codes "roles") fields) s) _ last found h1 in
      let (permissions, s3, _, h3) =
        bind-ok (list_of w (field (codes "permissions") fields) s2) _ last found h2 in
      let same_user = (pure-ok _ found s3 last h3).0 in
      (ap (λ u. u.user_id) (sym same_user), ap (λ u. u.session_id) (sym same_user))

  parsed-ok :
      {A B : Type 0} (o : Option A) (s : S) (f : A → Method S B) (last : S) (b : B)
      → after (parsed_or o s) f ≡ (ok b, last)
      → (a : A) × (o ≡ some a) × (f a s ≡ (ok b, last))
  parsed-ok none s f last b h = absurd (cc)
  parsed-ok (some a) s f last b h = (a, refl, h)

  unreplayed :
      (c : Bool) (family : List ℕ) (now : ℕ) (s : S) {B : Type 0} (f : Unit → Method S B) (last : S)
      (b : B)
      → after (refuse_replay w c family now s) f ≡ (ok b, last)
      → (c ≡ false) × (f tt s ≡ (ok b, last))
  unreplayed false family now s f last b h = (refl, h)
  unreplayed true family now s f last b h = absurd (
      thrown_after
        (invalidate_token_family w.redis w.writes w.library family (codes "potential_replay_attack")
          now s)
        _ f last b h)

  -- What the part with the lock has checked: the text of the family names this very token, or none.
  abbrev pub IsExpected : RefreshClaims → Option (List ℕ) → Type 0
  IsExpected claims text =
      (is_truthy text ≡ true)
      × ((info : FamilyInfo) × (w.library.parse_family (or_empty text) ≡ some info)
          × (is_replayed info.jti claims.jti ≡ false))

  abbrev pub IsFor : RefreshClaims → Draw → TokenPair → Type 0
  IsFor claims draw pair =
      (user : User) × (user.user_id ≡ claims.sub)
      × (user.session_id ≡ claims.session_id)
      × (pair_of w user draw ≡ pair)

  exchanged-ok :
      (claims : RefreshClaims) (draw : Draw) (text : Option (List ℕ)) (s last : S)
      (pair : TokenPair)
      → exchanged w claims draw text s ≡ (ok pair, last)
      → IsExpected claims text × IsFor claims draw pair
  exchanged-ok claims draw text s last pair h =
      let (there, h1) = throw_if-ok (not (is_truthy text)) _ s _ last pair h in
      let (info, parsed, h2) =
        parsed-ok (w.library.parse_family (or_empty text)) s _ last pair h1 in
      let (expected, h3) =
        unreplayed (is_replayed info.jti claims.jti) claims.token_family draw.moment.now s _ last
          pair h2 in
      let (user, s4, read, h4) =
        bind-ok (get_user_data w claims.sub claims.session_id s) _ last pair h3 in
      let (made, s5, generated, h5) = bind-ok (generate_token_pair w user draw s4) _ last pair h4 in
      let (_, s6, _, h6) =
        bind-ok
          (add_to_blacklist w.redis w.writes w.library.stringify w.library.parse_entry claims.jti
            claims.sub (draw.moment.now + 86400000) (codes "token_refreshed") draw.moment.now s5)
          _ last pair h5 in
      let (_, s7, _, h7) =
        bind-ok
          (blacklist_for_a_day w.redis w.writes w.library info.jti claims.sub
            (codes "token_refreshed") draw.moment.now s6)
          _ last pair h6 in
      let (_, _, h8) =
        replied-ok (w.writes.exec (del (family_key claims.token_family) ∷ []) s7).0 _ _ last pair
          h7 in
      let (same_user, same_session) =
        get_user_data-ok claims.sub claims.session_id s s4 user read in
      (
        (not-false (is_truthy text) there, (info, parsed, expected)),
        (
          user,
          same_user,
          same_session,
          (generate_token_pair-ok user draw s4 s5 made generated).0
              ∙ (pure-ok made pair _ last h8).0,
        ),
      )

  abbrev pub found_refresh : List ℕ → Option RefreshTokenPayload
  found_refresh token = w.library.verify_refresh token w.service.refresh_token_secret

  -- The stores after the limiter and after the call for the lock.
  abbrev pub limited_at : RefreshClaims → Attempt S → S → RateLimitResult × S
  limited_at claims attempt s =
      check_rate_limit w.redis w.sets w.lua w.limits claims.sub refresh attempt.moment.now s

  abbrev pub locked_at : RefreshClaims → Attempt S → S → Acquisition × S
  locked_at claims attempt s =
      acquire_lock w.redis refresh_options attempt.asleep attempt.random (lock_name claims)
        attempt.lock_value s

  -- What a lock is needed for.
  with_lock :
      (claims : RefreshClaims) (draw : Draw) (lock : Acquisition) (s last : S) (pair : TokenPair)
      → exchange_locked w claims draw lock s ≡ (ok pair, last)
      → ((l : DistributedLock) × (lock ≡ held l))
        × (exchange w claims draw s ≡ (ok pair, (exchange w claims draw s).1))
  with_lock claims draw (held l) s last pair h =
      ((l, refl), finished (exchange w claims draw s) (ap (λ r. r.0) h))
  with_lock claims draw gave_up s last pair h = absurd (cc)
  with_lock claims draw failed s last pair h = absurd (cc)

  -- What is checked after the verification, and that the pair is for the token's user and session.
  abbrev pub IsGranted : RefreshClaims → Attempt S → S → TokenPair → Type 0
  IsGranted claims attempt s pair =
      let limit = limited_at claims attempt s in
      let acquired = locked_at claims attempt limit.1 in
      (limit.0.allowed ≡ true)
      × ((lock : DistributedLock) × (acquired.0 ≡ held lock))
      × ((text : Option (List ℕ)) × (w.redis.get (family_key claims.token_family) acquired.1
            ≡ some text)
          × IsExpected claims text)
      × IsFor claims attempt.draw pair

  refreshed-IsGranted :
      (attempt : Attempt S) (payload : RefreshTokenPayload) (s last : S) (pair : TokenPair)
      → refreshed w attempt payload s ≡ (ok pair, last)
      → IsGranted payload.claims attempt s pair
  refreshed-IsGranted attempt payload s last pair h =
      let limit = limited_at payload.claims attempt s in
      let lock = locked_at payload.claims attempt limit.1 in
      let (allowed, h1) = throw_if-ok (not limit.0.allowed) _ limit.1 _ last pair h in
      let (got, h2) = with_lock payload.claims attempt.draw lock.0 lock.1 last pair h1 in
      let (text, found, h3) =
        replied-ok (w.redis.get (family_key payload.claims.token_family) lock.1) lock.1 _ _ pair
          h2 in
      let (expected, for_user) = exchanged-ok payload.claims attempt.draw text lock.1 _ pair h3 in
      (not-false limit.0.allowed allowed, got, (text, found, expected), for_user)

  -- When a refresh gives a pair, then the service is initialized, `jwt.verify` gave a payload, the
  -- limiter let its user refresh, the lock of its family was got, the text of the family that GET gave
  -- after that has no identifier or this token's own, and the pair is made for the user and the session
  -- of the token.
  pub refresh_access_token-IsGranted :
      (token : List ℕ) (attempt : Attempt S) (s last : S) (pair : TokenPair)
      → refresh_access_token w token attempt s ≡ (ok pair, last)
      → (w.service.initialized ≡ true)
        × ((payload : RefreshTokenPayload) × (found_refresh token ≡ some payload)
            × IsGranted payload.claims attempt s pair)
  unfolding refresh_access_token verify_refresh_token
  refresh_access_token-IsGranted token attempt s last pair h =
      let (ready, h1) = throw_if-ok (not w.service.initialized) _ s _ last pair h in
      let (payload, s2, verified, h2) = bind-ok (verify_refresh_token w token s) _ last pair h1 in
      let (same_payload, same_store) =
        checked w (found_refresh token) s s2 payload
          (handled-ok (checked_refresh w (found_refresh token) s) _ s2 payload verified) in
      (
        not-false w.service.initialized ready,
        (
          payload,
          same_payload,
          subst (λ x. IsGranted payload.claims attempt x pair) (sym same_store)
              (refreshed-IsGranted attempt payload s2 last pair h2),
        ),
      )
