-- ===== src/V1/RateLimiter.antt =====
-- legacy/v1/src/auth/token-rate-limiter.ts: TokenRateLimiter, over the Redis interface. A time is in
-- milliseconds, a text its UTF-16 code units. Each operation gives its result and the store.
pub mod Window
pub mod Refines
mod Tests
use secure_mcp.Shared.{
  ℕ, zero, suc, ◌+◌, ◌-◌, ◌*◌, ◌/◌, ◌%◌, ◌≤◌, ◌<◌, min, max, String, ◌≡◌, refl, sym, ap, ◌∙◌, ◌≢◌,
  ◌↔◌, ◌⊎◌, inl, inr, Bool, true, false, not, ◌&&◌, ◌||◌, Option, none, some, List, [], ◌∷◌, ◌++◌,
  map, arith, str_eq, eq_iff, ltb, leb, ◌==◌, if◌then◌else◌, ltb→lt, lt→ltb, leb→le, le→leb, ==_iff,
  Bool-cases, Option-cases, Bool-eq_of_iff, and_intro, and_left, and_right, length, all, any, keep,
  length-append, length-keep-le, take, drop, get_elem?, All, All-append, all-All, All-all, All-mono,
  In, In-append, In-append_right, codes, bit_and_31, bit_or_byte, includes, includes_iff, is_empty,
  units, is_lower, is_upper, is_digit, is_alnum, modify_at, tally, tally-append, tally-modify_at-le,
  All-modify_at, All-get_elem?, take-add, take_all, take-append_drop, length-drop, take-append,
  take-nil, drop-nil, drop-add, append-nil, append_assoc, ap₂, subst, some-injective,
}
use secure_mcp.V1.Redis.{Lua, Redis, delivered, eval}
use secure_mcp.V1.Redis.SortedSets.{SortedSets}
use secure_mcp.V1.Redis.Writes.{Writes}

pub record RateLimitOptions : Type 0 where
  pub window_size_ms : ℕ
  pub max_requests : ℕ
  pub key_prefix : List ℕ

pub data Operation : Type 0 where
  validate refresh generate revoke : Operation

abbrev pub operations : List Operation
operations = validate ∷ refresh ∷ generate ∷ revoke ∷ []

-- `this.config`: the default options with those that the constructor was given.
abbrev pub RateLimitConfig : Type 0
RateLimitConfig = Operation → RateLimitOptions

abbrev pub default_config : RateLimitConfig
default_config validate = record {
  window_size_ms = 60000;
  max_requests = 1000;
  key_prefix = codes "rate_limit:validate";
}
default_config refresh = record {
  window_size_ms = 300000;
  max_requests = 10;
  key_prefix = codes "rate_limit:refresh";
}
default_config generate = record {
  window_size_ms = 300000;
  max_requests = 5;
  key_prefix = codes "rate_limit:generate";
}
default_config revoke = record {
  window_size_ms = 60000;
  max_requests = 20;
  key_prefix = codes "rate_limit:revoke";
}

abbrev pub configured : (Operation → Option RateLimitOptions) → RateLimitConfig
configured given operation = elim (given operation) [
  | none ↦ default_config operation
  | some options ↦ options
]

abbrev pub key_of : RateLimitOptions → List ℕ → List ℕ
key_of options user = options.key_prefix ++ (b':' ∷ user)

-- What remains; -1 is `maxRequests - 1` of a limit of 0.
pub data Remaining : Type 0 where
  requests_left : ℕ → Remaining
  minus_one : Remaining

abbrev pub one_less : ℕ → Remaining
one_less zero = minus_one
one_less (suc n) = requests_left n

pub record RateLimitResult : Type 0 where
  pub allowed : Bool
  pub remaining : Remaining
  pub reset_time : ℕ
  pub total_hits : ℕ

-- `math.ceil(milliseconds / 1000)`
abbrev pub ceil_seconds : ℕ → ℕ
ceil_seconds milliseconds = (milliseconds + 999) / 1000

-- What the script of a check replies.
pub record Reply : Type 0 where
  pub is_allowed : Bool
  pub left : ℕ
  pub hits : ℕ

-- `current_time .. ':' .. math.random()`
abbrev pub member_of : Lua → ℕ → List ℕ
member_of lua now = lua.tostring now ++ (b':' ∷ lua.first_random)

module _ {S : Type 0} (redis : Redis S) (sets : SortedSets S) (lua : Lua) where
  -- Its two steps after the expired entries are gone: count, and add the request if there is room.
  abbrev pub counted_script : RateLimitOptions → List ℕ → ℕ → S → Reply × S
  counted_script options key now s =
      let count = sets.zcard_now key s in
      let added = sets.zadd_now key now (member_of lua now) s in
      if ltb count options.max_requests
      then (
        record { is_allowed = true; left = options.max_requests - count - 1; hits = count + 1 },
        (redis.expire_now key (ceil_seconds options.window_size_ms) added).1,
      )
      else (record { is_allowed = false; left = options.max_requests - count; hits = count }, s)

  unfoldable pub check_script : RateLimitOptions → List ℕ → ℕ → S → Reply × S
  check_script options key now s =
      counted_script options key now (sets.zremrangebyscore_now key now options.window_size_ms s).1

  -- The result of a check; without a reply the request is allowed.
  abbrev pub result_of : RateLimitOptions → ℕ → Option Reply → RateLimitResult
  result_of options now (some reply) = record {
    allowed = reply.is_allowed;
    remaining = requests_left reply.left;
    reset_time = now + options.window_size_ms;
    total_hits = reply.hits;
  }
  result_of options now none = record {
    allowed = true;
    remaining = one_less options.max_requests;
    reset_time = now + options.window_size_ms;
    total_hits = 1;
  }

  unfoldable pub check_rate_limit :
      RateLimitConfig → List ℕ → Operation → ℕ → S → RateLimitResult × S
  unfolding check_script
  check_rate_limit config user operation now s =
      let options = config operation in
      let (reply, after) = eval redis (check_script options (key_of options user) now) s in
      (result_of options now reply, after)

  -- Whether it returns; if not, it throws.
  unfoldable pub reset_rate_limit : RateLimitConfig → List ℕ → Operation → S → Bool × S
  reset_rate_limit config user operation s =
      let (reply, after) = redis.del (key_of (config operation) user ∷ []) s in
      (elim reply [ none ↦ false | some n ↦ true ], after)

  pub record RateLimitStatus : Type 0 where
    pub request_count : ℕ
    pub status_remaining : ℕ
    pub status_reset : ℕ

  unfoldable pub get_rate_limit_status :
      RateLimitConfig → List ℕ → Operation → ℕ → S → RateLimitStatus × S
  get_rate_limit_status config user operation now s =
      let options = config operation in
      let key = key_of options user in
      let reset = now + options.window_size_ms in
      let failed : RateLimitStatus = record {
        request_count = 0;
        status_remaining = options.max_requests;
        status_reset = reset;
      } in
      let (removed, after) = sets.zremrangebyscore key now options.window_size_ms s in
      elim removed [
        | none ↦ (failed, after)
        | some n ↦ elim (sets.zcard key after) [
          | none ↦ (failed, after)
          | some count ↦ (
            record {
              request_count = count;
              status_remaining = options.max_requests - count;
              status_reset = reset;
            },
            after,
          )
        ]
      ]

  abbrev pub increment_script : RateLimitOptions → List ℕ → ℕ → S → ℕ × S
  increment_script options key now s =
      let swept = (sets.zremrangebyscore_now key now options.window_size_ms s).1 in
      let added = sets.zadd_now key now (member_of lua now) swept in
      let after = (redis.expire_now key (ceil_seconds options.window_size_ms) added).1 in
      (sets.zcard_now key after, after)

  unfoldable pub increment_counter : RateLimitConfig → List ℕ → Operation → ℕ → S → S
  increment_counter config user operation now s =
      let options = config operation in
      (eval redis (increment_script options (key_of options user) now) s).1

  -- `${config.keyPrefix}:*`
  abbrev pub pattern_of : RateLimitOptions → List ℕ
  pattern_of options = options.key_prefix ++ b':' ∷ []

  abbrev pub or_zero : Option ℕ → ℕ
  or_zero none = 0
  or_zero (some n) = n

  -- The requests at some keys; a key whose count fails is left out.
  abbrev pub requests_at : List (List ℕ) → S → ℕ
  requests_at [] s = 0
  requests_at (k ∷ ks) s = or_zero (sets.zcard k s) + requests_at ks s

  -- The active users and the requests of each operation; `none` where the code returns empty records.
  unfoldable pub get_global_stats :
      RateLimitConfig → List Operation → S → Option (List (Operation × (ℕ × ℕ)))
  get_global_stats config [] s = some []
  get_global_stats config (operation ∷ rest) s =
      let more = get_global_stats config rest s in
      elim (redis.keys (pattern_of (config operation)) s) [
        | none ↦ none
        | some keys ↦ elim more [
          | none ↦ none
          | some stats ↦ some ((operation, (length keys, requests_at keys s)) ∷ stats)
        ]
      ]

  -- One key of the clean-up: how many entries were removed, and the store.
  abbrev pub clean_key : RateLimitOptions → ℕ → List ℕ → S → ℕ × S
  clean_key options now key s =
      let (removed, after) = sets.zremrangebyscore key now options.window_size_ms s in
      elim removed [
        | none ↦ (0, after)
        | some n ↦ elim (sets.zcard key after) [
          | none ↦ (n, after)
          | some count ↦ (n, if count == 0 then (redis.del (key ∷ []) after).1 else after)
        ]
      ]

  -- `clock` is the time when a key's turn comes.
  unfoldable pub clean_keys : RateLimitOptions → (List ℕ → ℕ) → List (List ℕ) → S → ℕ × S
  clean_keys options clock [] s = (0, s)
  clean_keys options clock (k ∷ ks) s =
      let (n, after) = clean_key options (clock k) k s in
      let (more, last) = clean_keys options clock ks after in (n + more, last)

  -- The loop over the operations; `none` is a KEYS that throws, after which the result is 0.
  unfoldable pub clean_operations :
      RateLimitConfig → (List ℕ → ℕ) → List Operation → S → Option ℕ × S
  unfolding clean_keys
  clean_operations config clock [] s = (some 0, s)
  clean_operations config clock (operation ∷ rest) s =
      let options = config operation in
      elim (redis.keys (pattern_of options) s) [
        | none ↦ (none, s)
        | some keys ↦
            let (n, after) = clean_keys options clock keys s in
            let (more, last) = clean_operations config clock rest after in
            (elim more [ none ↦ none | some m ↦ some (n + m) ], last)
      ]

  unfoldable pub cleanup_expired_entries : RateLimitConfig → (List ℕ → ℕ) → S → ℕ × S
  unfolding clean_operations
  cleanup_expired_entries config clock s =
      let (n, after) = clean_operations config clock operations s in (or_zero n, after)

  abbrev pub block_key : List ℕ → List ℕ
  block_key user = codes "rate_limit:blocked:" ++ user

  -- `reason` is the JSON text with the reason. False is a throw.
  unfoldable pub block_user : Writes S → List ℕ → ℕ → List ℕ → S → Bool × S
  block_user writes user duration_ms reason s =
      writes.setex_call (block_key user) (ceil_seconds duration_ms) reason s

  -- An error counts as not blocked.
  unfoldable pub is_user_blocked : List ℕ → S → Bool
  is_user_blocked user s = elim (redis.get (block_key user) s) [
    | none ↦ false
    | some none ↦ false
    | some (some reason) ↦ true
  ]

  unfoldable pub unblock_user : List ℕ → S → Bool × S
  unblock_user user s =
      let (reply, after) = redis.del (block_key user ∷ []) s in
      (elim reply [ none ↦ false | some n ↦ true ], after)
