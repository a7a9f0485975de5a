-- ===== src/V1/Jwt/Tokens.antt =====
-- legacy/v1/src/auth/jwt-service.ts: the methods that make, verify and refresh tokens, over the
-- limiter, the lock and the blacklist. The time and the random values of a call are given.
use secure_mcp.Shared.{
  ℕ, ◌+◌, Bool, true, false, not, Option, none, some, List, [], ◌∷◌, ◌++◌, if◌then◌else◌, codes,
}
use secure_mcp.Http.Target.{same}
use secure_mcp.V1.Actions.{
  token_error, because, client, failure, Method, ◌>>=◌, ◌>>◌, pure, throw, asks, calls, catch,
  parsed_or, reads, runs, finally, throw_if,
}
use secure_mcp.V1.Redis.{Lua, Redis}
use secure_mcp.V1.Redis.SortedSets.{SortedSets}
use secure_mcp.V1.Redis.Writes.{Writes, Write, setex, sadd, expire, del}
use secure_mcp.V1.RateLimiter.{
  RateLimitConfig, RateLimitResult, Operation, validate, refresh, generate, check_rate_limit,
  is_user_blocked,
}
use secure_mcp.V1.Lock.{
  LockOptions, Acquisition, held, gave_up, failed, Sleep, acquire_lock, release_lock,
}
use secure_mcp.V1.Blacklist.{add_to_blacklist, is_truthy, is_blacklisted}
use secure_mcp.V1.Jwt.{
  AccessClaims, JwtPayload, RefreshClaims, RefreshTokenPayload, TokenPair, TokenFamily, Library,
  JwtService,
}
use secure_mcp.V1.Jwt.Revoking.{
  active_key, family_key, session_key, blacklist_for_a_day, invalidate_token_family,
  enforce_session_limit,
}

-- What the service works with.
pub record World (S : Type 0) : Type 0 where
  pub redis : Redis S
  pub sets : SortedSets S
  pub lua : Lua
  pub writes : Writes S
  pub limits : RateLimitConfig
  pub library : Library
  pub service : JwtService

-- The time of a call.
pub record Moment : Type 0 where
  pub now : ℕ

-- A call of `generateTokenPair`: three random identifiers, and the whole seconds of the two jitters.
pub record Draw : Type 0 where
  pub moment : Moment
  pub jti : List ℕ
  pub family : List ℕ
  pub refresh_jti : List ℕ
  pub access_jitter : ℕ
  pub refresh_jitter : ℕ

-- A call of `refreshAccessToken`: what `acquireLock` is given, and the two calls within.
pub record Attempt (S : Type 0) : Type 0 where
  pub moment : Moment
  pub draw : Draw
  pub lock_value : List ℕ
  pub random : ℕ → ℕ
  pub asleep : Sleep → S → S

pub record User : Type 0 where
  pub user_id : List ℕ
  pub email : List ℕ
  pub roles : List (List ℕ)
  pub permissions : List (List ℕ)
  pub session_id : List ℕ
  pub mfa_verified : Bool

-- The first text under a name, in the reply of HGETALL.
abbrev pub field : List ℕ → List (List ℕ × List ℕ) → Option (List ℕ)
field name [] = none
field name ((k, v) ∷ rest) = let found = field name rest in if same k name then some v else found

abbrev pub or_empty : Option (List ℕ) → List ℕ
or_empty none = []
or_empty (some x) = x

abbrev pub refresh_options : LockOptions
refresh_options = record { ttl = 10000; retry_delay = 100; max_retries = 5; jitter = true }

abbrev pub lock_name : RefreshClaims → List ℕ
lock_name claims = codes "token_refresh:" ++ (claims.sub ++ b':' ∷ claims.token_family)

-- `familyInfo.jti && familyInfo.jti !== refreshPayload.jti`
abbrev pub is_replayed : Option (List ℕ) → List ℕ → Bool
is_replayed (some (c ∷ cs)) jti = not (same (c ∷ cs) jti)
is_replayed _ jti = false

module _ {S : Type 0} (w : World S) where
  abbrev pub limited : Operation → List ℕ → Moment → Method S RateLimitResult
  limited operation user moment =
      runs (check_rate_limit w.redis w.sets w.lua w.limits user operation moment.now)

  abbrev pub access_claims : User → Draw → AccessClaims
  access_claims user draw = record {
    sub = user.user_id;
    email = user.email;
    roles = user.roles;
    permissions = user.permissions;
    session_id = user.session_id;
    mfa_verified = user.mfa_verified;
    iss = w.service.issuer;
    aud = w.service.audience;
    jti = draw.jti;
  }

  abbrev pub refresh_claims : User → Draw → RefreshClaims
  refresh_claims user draw = record {
    sub = user.user_id;
    session_id = user.session_id;
    token_family = draw.family;
    jti = draw.refresh_jti;
  }

  -- `applyJitter`
  abbrev pub access_expiry : Draw → ℕ
  access_expiry draw = w.service.access_token_ttl + draw.access_jitter

  abbrev pub refresh_expiry : Draw → ℕ
  refresh_expiry draw = w.service.refresh_token_ttl + draw.refresh_jitter

  abbrev pub family_of : User → Draw → TokenFamily
  family_of user draw = record {
    user_id = user.user_id;
    session_id = user.session_id;
    created_at = draw.moment.now;
    jti = draw.jti;
  }

  abbrev pub pair_writes : User → Draw → List Write
  pair_writes user draw =
      setex (family_key draw.family) (refresh_expiry draw)
        (w.library.family_text (family_of user draw))
      ∷ setex (active_key draw.jti) (access_expiry draw)
          (w.library.active_text user.user_id user.session_id draw.moment.now)
      ∷ sadd (session_key user.session_id) draw.jti
      ∷ expire (session_key user.session_id) (refresh_expiry draw)
      ∷ []

  abbrev pub pair_of : User → Draw → TokenPair
  pair_of user draw = record {
    access_token =
        w.library.sign_access (access_claims user draw) w.service.access_token_secret
          (access_expiry draw);
    refresh_token =
        w.library.sign_refresh (refresh_claims user draw) w.service.refresh_token_secret
          (refresh_expiry draw);
    expires_in = access_expiry draw;
    refresh_expires_in = refresh_expiry draw;
  }

  abbrev pub ensure_initialized : Method S Unit
  ensure_initialized = throw_if (not w.service.initialized) (codes "JWT service not initialized")

  unfoldable pub generate_token_pair : User → Draw → Method S TokenPair
  generate_token_pair user draw = do
    ensure_initialized
    limit ← limited generate user.user_id draw.moment
    throw_if (not limit.allowed) (codes "Rate limit exceeded for token generation")
    blocked ← reads (is_user_blocked w.redis w.sets w.lua user.user_id)
    throw_if blocked (codes "User is temporarily blocked from token operations")
    enforce_session_limit w.redis w.writes w.library
    calls (w.writes.exec (pair_writes user draw))
    pure (pair_of user draw)

  abbrev pub checked_access : Option JwtPayload → Moment → Method S JwtPayload
  checked_access none moment = throw token_error
  checked_access (some payload) moment = do
    limit ← limited validate payload.claims.sub moment
    throw_if (not limit.allowed) (codes "Rate limit exceeded for token validation")
    listed ← reads (
        is_blacklisted w.redis w.writes w.library.stringify w.library.parse_entry
          payload.claims.jti)
    throw_if listed (codes "Token has been blacklisted")
    active ← asks (w.redis.get (active_key payload.claims.jti))
    throw_if (not (is_truthy active)) (codes "Token has been revoked")
    pure payload

  unfoldable pub verify_access_token : List ℕ → Moment → Method S JwtPayload
  verify_access_token token moment =
      ensure_initialized
      >> catch
          (checked_access
            (w.library.verify_access token w.service.access_token_secret w.service.issuer
              w.service.audience)
            moment)
          (λ e. throw (failure (codes "Invalid or expired access token")))

  abbrev pub checked_refresh : Option RefreshTokenPayload → Method S RefreshTokenPayload
  checked_refresh none = throw token_error
  checked_refresh (some payload) = do
    family ← asks (w.redis.get (family_key payload.claims.token_family))
    throw_if (not (is_truthy family)) (codes "Token family not found or expired")
    pure payload

  unfoldable pub verify_refresh_token : List ℕ → Method S RefreshTokenPayload
  verify_refresh_token token =
      catch (checked_refresh (w.library.verify_refresh token w.service.refresh_token_secret))
        (λ e. throw (failure (codes "Invalid or expired refresh token")))

  -- `field ? JSON.parse(field) : []`
  abbrev pub list_of : Option (List ℕ) → Method S (List (List ℕ))
  list_of (some (c ∷ cs)) = parsed_or (w.library.parse_list (c ∷ cs))
  list_of _ = pure []

  abbrev pub is_true : Option (List ℕ) → Bool
  is_true none = false
  is_true (some x) = same x (codes "true")

  -- `getUserData`, with the user and the session of the token.
  unfoldable pub get_user_data : List ℕ → List ℕ → Method S User
  get_user_data user session = do
    fields ← asks (w.writes.hgetall (codes "user:" ++ user))
    roles ← list_of (field (codes "roles") fields)
    permissions ← list_of (field (codes "permissions") fields)
    pure (record {
      user_id = user;
      email = or_empty (field (codes "email") fields);
      roles = roles;
      permissions = permissions;
      session_id = session;
      mfa_verified = is_true (field (codes "mfaVerified") fields);
    })

  abbrev pub refuse_replay : Bool → List ℕ → ℕ → Method S Unit
  refuse_replay false family now = pure tt
  refuse_replay true family now =
      invalidate_token_family w.redis w.writes w.library family (codes "potential_replay_attack")
        now
      >> throw (failure (codes "Invalid refresh token - security violation detected"))

  -- The part that holds the lock; `data` is the text of the family. The pipeline with the family's
  -- deletion is executed last.
  abbrev pub exchanged : RefreshClaims → Draw → Option (List ℕ) → Method S TokenPair
  exchanged claims draw text = do
    throw_if (not (is_truthy text)) (codes "Token family not found or already used")
    info ← parsed_or (w.library.parse_family (or_empty text))
    refuse_replay (is_replayed info.jti claims.jti) claims.token_family draw.moment.now
    user ← get_user_data claims.sub claims.session_id
    pair ← generate_token_pair user draw
    add_to_blacklist w.redis w.writes w.library.stringify w.library.parse_entry claims.jti
        claims.sub (draw.moment.now + 86400000) (codes "token_refreshed") draw.moment.now
    blacklist_for_a_day w.redis w.writes w.library info.jti claims.sub (codes "token_refreshed")
        draw.moment.now
    calls (w.writes.exec (del (family_key claims.token_family) ∷ []))
    pure pair

  abbrev pub exchange : RefreshClaims → Draw → Method S TokenPair
  exchange claims draw =
      asks (w.redis.get (family_key claims.token_family)) >>= λ text. exchanged claims draw text

  -- With the lock, or without one.
  abbrev pub exchange_locked : RefreshClaims → Draw → Acquisition → Method S TokenPair
  exchange_locked claims draw (held lock) =
      finally (exchange claims draw) (λ s. (release_lock w.redis lock s).1.1)
  exchange_locked claims draw gave_up =
      throw (failure (codes "Unable to acquire refresh lock - try again later"))
  exchange_locked claims draw failed =
      throw (because (codes "Failed to acquire lock after 5 attempts: ") client)

  -- What follows the verification.
  abbrev pub refreshed : Attempt S → RefreshTokenPayload → Method S TokenPair
  refreshed attempt payload = do
    limit ← limited refresh payload.claims.sub attempt.moment
    throw_if (not limit.allowed) (codes "Rate limit exceeded for token refresh")
    lock ← runs (
        acquire_lock w.redis refresh_options attempt.asleep attempt.random
          (lock_name payload.claims) attempt.lock_value)
    exchange_locked payload.claims attempt.draw lock

  unfoldable pub refresh_access_token : List ℕ → Attempt S → Method S TokenPair
  refresh_access_token token attempt = do
    ensure_initialized
    payload ← verify_refresh_token token
    refreshed attempt payload
