-- ===== src/V1/Lock.antt =====
-- legacy/v1/src/auth/distributed-lock.ts: RedisDistributedLock, over the Redis interface. A text is its
-- UTF-16 code units and a time is in milliseconds. Each operation gives its result, the lock object
-- where it changes it, and the store.
pub mod Owned
pub mod Acquired
mod Tests
mod Timed
use secure_mcp.Shared.{
  ℕ, zero, suc, ◌+◌, ◌-◌, ◌*◌, ◌/◌, ◌%◌, ◌≤◌, ◌<◌, min, max, String, ◌≡◌, refl, sym, ap, ◌∙◌, ◌≢◌,
  ◌↔◌, ◌⊎◌, inl, inr, Bool, true, false, not, ◌&&◌, ◌||◌, Option, none, some, List, [], ◌∷◌, ◌++◌,
  map, arith, str_eq, eq_iff, ltb, leb, ◌==◌, if◌then◌else◌, ltb→lt, lt→ltb, leb→le, le→leb, ==_iff,
  Bool-cases, Option-cases, Bool-eq_of_iff, and_intro, and_left, and_right, length, all, any, keep,
  length-append, length-keep-le, take, drop, get_elem?, All, All-append, all-All, All-all, All-mono,
  In, In-append, In-append_right, codes, bit_and_31, bit_or_byte, includes, includes_iff, is_empty,
  units, is_lower, is_upper, is_digit, is_alnum, modify_at, tally, tally-append, tally-modify_at-le,
  All-modify_at, All-get_elem?, take-add, take_all, take-append_drop, length-drop, take-append,
  take-nil, drop-nil, drop-add, append-nil, append_assoc, ap₂, subst, some-injective,
}
use secure_mcp.Http.Target.{same}
use secure_mcp.V1.Redis.{eval, Redis, Ttl, no_expiry, seconds}

pub record DistributedLock : Type 0 where
  pub key : List ℕ
  pub value : List ℕ
  pub ttl : ℕ
  pub acquired : Bool

pub record LockOptions : Type 0 where
  pub ttl : ℕ
  pub retry_delay : ℕ
  pub max_retries : ℕ
  pub jitter : Bool

abbrev pub default_options : LockOptions
default_options = record { ttl = 5000; retry_delay = 50; max_retries = 10; jitter = true }

abbrev pub lock_prefix : List ℕ
lock_prefix = codes "distributed_lock:"

abbrev pub full_key : List ℕ → List ℕ
full_key lock_key = lock_prefix ++ lock_key

-- How `acquireLock` ends: with a lock, with null, or with a thrown error.
pub data Acquisition : Type 0 where
  held : DistributedLock → Acquisition
  gave_up : Acquisition
  failed : Acquisition

-- A call of `sleep`: after an attempt that found the key taken, with a random share of the jitter, or
-- after an error.
pub data Sleep : Type 0 where
  retry : ℕ → Sleep
  after_error : ℕ → Sleep

abbrev pub retry_delay_of : LockOptions → ℕ → Sleep
retry_delay_of options random =
    retry (if options.jitter then options.retry_delay + random else options.retry_delay)

abbrev pub is_one : ℕ → Bool
is_one n = n == 1

abbrev pub is_one_reply : Option ℕ → Bool
is_one_reply none = false
is_one_reply (some n) = is_one n

abbrev pub is_value : List ℕ → Option (List ℕ) → Bool
is_value value none = false
is_value value (some current) = same current value

pub record LockInfo : Type 0 where
  pub is_locked : Bool
  pub ttl : ℕ
  pub value : Option (List ℕ)

abbrev pub milliseconds : Ttl → ℕ
milliseconds (seconds n) = n * 1000
milliseconds _ = 0

-- `value || undefined`
abbrev pub non_empty : Option (List ℕ) → Option (List ℕ)
non_empty (some (c ∷ cs)) = some (c ∷ cs)
non_empty _ = none

abbrev pub is_there : Option (List ℕ) → Bool
is_there none = false
is_there (some v) = true

abbrev pub has_no_expiry : Option Ttl → Bool
has_no_expiry (some no_expiry) = true
has_no_expiry _ = false

abbrev pub or_zero : Option ℕ → ℕ
or_zero none = 0
or_zero (some n) = n

module _ {S : Type 0} (redis : Redis S) where
  -- `tryAcquire`; its ttlSeconds is not used.
  abbrev pub try_acquire : List ℕ → List ℕ → ℕ → S → Option Bool × S
  try_acquire key value ttl s = redis.set_px_nx key value ttl s

  -- The loop of `acquireLock`, with the attempts that are left. `asleep` is what happens to the store
  -- during a sleep, and `random` the part of the jitter at each attempt.
  unfoldable pub acquire_loop :
      LockOptions → (Sleep → S → S) → (ℕ → ℕ) → List ℕ → List ℕ → ℕ → S → Acquisition × S
  acquire_loop options asleep random key value zero s = (gave_up, s)
  acquire_loop options asleep random key value (suc left) s =
      let (reply, after) = try_acquire key value options.ttl s in
      elim reply [
        | some true ↦
            (held (record { key = key; value = value; ttl = options.ttl; acquired = true }), after)
        | some false ↦
            acquire_loop options asleep random key value left
              (asleep (retry_delay_of options (random left)) after)
        | none ↦ elim (left == 0) [
          | true ↦ (failed, after)
          | false ↦
              acquire_loop options asleep random key value left
                (asleep (after_error options.retry_delay) after)
        ]
      ]

  unfoldable pub acquire_lock :
      LockOptions → (Sleep → S → S) → (ℕ → ℕ) → List ℕ → List ℕ → S → Acquisition × S
  unfolding acquire_loop
  acquire_lock options asleep random lock_key value s =
      acquire_loop options asleep random (full_key lock_key) value options.max_retries s

  -- The two scripts: compare the value, then delete the key or set its expiry.
  abbrev pub compare_and : List ℕ → Option (List ℕ) → ℕ × S → S → ℕ × S
  compare_and value none act s = (0, s)
  compare_and value (some current) act s = if same current value then act else (0, s)

  abbrev pub release_script : List ℕ → List ℕ → S → ℕ × S
  release_script key value s = compare_and value (redis.get_now key s) (redis.del_now key s) s

  abbrev pub extend_script : List ℕ → List ℕ → ℕ → S → ℕ × S
  extend_script key value new_ttl s =
      compare_and value (redis.get_now key s) (redis.expire_now key new_ttl s) s

  -- What `releaseLock` and `extendLock` make of the reply.
  abbrev pub released : DistributedLock → Option ℕ × S → Bool × (DistributedLock × S)
  released lock (reply, after) =
      if is_one_reply reply
      then (
        true,
        (record { key = lock.key; value = lock.value; ttl = lock.ttl; acquired = false }, after),
      )
      else (false, (lock, after))

  abbrev pub extended : DistributedLock → ℕ → Option ℕ × S → Bool × (DistributedLock × S)
  extended lock new_ttl (reply, after) =
      if is_one_reply reply
      then (
        true,
        (
          record { key = lock.key; value = lock.value; ttl = new_ttl; acquired = lock.acquired },
          after,
        ),
      )
      else (false, (lock, after))

  unfoldable pub release_lock : DistributedLock → S → Bool × (DistributedLock × S)
  release_lock lock s =
      if not lock.acquired
      then (false, (lock, s))
      else released lock (eval redis (release_script lock.key lock.value) s)

  -- `Math.floor(newTTL / 1000)`
  unfoldable pub extend_lock : DistributedLock → ℕ → S → Bool × (DistributedLock × S)
  extend_lock lock new_ttl s =
      if not lock.acquired
      then (false, (lock, s))
      else extended lock new_ttl (eval redis (extend_script lock.key lock.value (new_ttl / 1000)) s)

  unfoldable pub is_lock_valid : DistributedLock → S → Bool
  is_lock_valid lock s =
      if not lock.acquired
      then false
      else elim (redis.get lock.key s) [ none ↦ false | some current ↦ is_value lock.value current ]

  unfoldable pub get_lock_info : List ℕ → S → LockInfo
  get_lock_info lock_key s = elim (redis.get (full_key lock_key) s) [
    | none ↦ record { is_locked = false; ttl = 0; value = none }
    | some value ↦ elim (redis.ttl (full_key lock_key) s) [
      | none ↦ record { is_locked = false; ttl = 0; value = none }
      | some ttl ↦ record {
        is_locked = is_there value;
        ttl = milliseconds ttl;
        value = non_empty value;
      }
    ]
  ]

  unfoldable pub force_release_lock : List ℕ → S → Bool × S
  force_release_lock lock_key s =
      let (reply, after) = redis.del (full_key lock_key ∷ []) s in (is_one_reply reply, after)

  -- The keys whose TTL in the pipeline is -1; an error within it is another
  -- result, and if the pipeline throws, nothing is deleted.
  abbrev pub expired_keys : List (List ℕ) → S → List (List ℕ)
  expired_keys keys s =
      if redis.is_pipelined s then keep (λ k. has_no_expiry (redis.ttl k s)) keys else []

  -- `none` of `keys` is an error.
  unfoldable pub cleanup_expired_locks : S → ℕ × S
  cleanup_expired_locks s = elim (redis.keys lock_prefix s) [
    | none ↦ (0, s)
    | some keys ↦ elim (expired_keys keys s) [
      | [] ↦ (0, s)
      | k ∷ ks ↦ let (reply, after) = redis.del (k ∷ ks) s in (or_zero reply, after)
    ]
  ]
