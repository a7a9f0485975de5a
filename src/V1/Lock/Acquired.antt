-- ===== src/V1/Lock/Acquired.antt =====
-- Acquiring a lock.
use secure_mcp.Shared.{
  ℕ, zero, suc, ◌+◌, ◌*◌, ◌≤◌, ◌<◌, ◌≡◌, refl, sym, ap, ◌∙◌, ◌⊎◌, inl, inr, Bool, true, false,
  Option, none, some, List, arith, ◌==◌, Bool-cases, Option-cases, subst,
}
use native.Mathlib.Nat.{suc-mul}
use secure_mcp.Http.Target.Sound.{same_refl}
use secure_mcp.V1.Redis.{Redis, RedisLaws}
use secure_mcp.V1.Lock.{
  retry, DistributedLock, LockOptions, Acquisition, Sleep, held, gave_up, failed, acquire_loop,
  acquire_lock, full_key, is_lock_valid, is_value, retry_delay_of, after_error,
}

-- A result without a lock.
abbrev pub IsLockless : Acquisition → Type 0
IsLockless (held lock) = ⊥
IsLockless gave_up = Unit
IsLockless failed = Unit

held-injective : {a b : DistributedLock} → held a ≡ held b → a ≡ b
held-injective e = cc

-- The four ends of one attempt.
pub attempt_cases {ℓ} :
    {R : Type 0} (P : R → Type ℓ) (o : Option Bool) (last : Bool) (won retried recovered thrown : R)
    → (o ≡ some true → P won)
    → P retried
    → P recovered
    → P thrown
    → P (elim o [
      | some true ↦ won
      | some false ↦ retried
      | none ↦ elim last [ true ↦ thrown | false ↦ recovered ]
    ])
attempt_cases P (some true) last won retried recovered thrown a b c d = a refl
attempt_cases P (some false) last won retried recovered thrown a b c d = b
attempt_cases P none true won retried recovered thrown a b c d = d
attempt_cases P none false won retried recovered thrown a b c d = c

one_turn : (l turn x y : ℕ) → suc l * turn < y → x ≤ turn → x < y
one_turn l turn x y h k = omega (arith, suc-mul l turn)

other_turns : (l turn x y z : ℕ) → suc l * turn < y → x ≤ turn → y ≤ z + x → l * turn < z
other_turns l turn x y z h k m = omega (arith, suc-mul l turn)

-- How long a sleep is, in milliseconds.
abbrev pub pause : Sleep → ℕ
pause (retry n) = n
pause (after_error n) = n

short_retry :
    (options : LockOptions) (n slack : ℕ)
    → n ≤ options.retry_delay
    → pause (retry_delay_of options n) + slack ≤ options.retry_delay * 2 + slack
short_retry options n slack h = elim (Bool-cases options.jitter) [
  | inl on ↦ rw on (omega arith)
  | inr off ↦ rw off (omega arith)
]

-- What the documentation says of the time to live: `left k s` is how many milliseconds a key has left. A
-- SET NX that sets the key gives it all its time, and one that is refused leaves it.
pub record ExpiryLaws {S : Type 0} (redis : Redis S) : Type 0 where
  pub left : List ℕ → S → ℕ
  pub set_left :
      (k v : List ℕ) (ttl : ℕ) (s : S)
      → (redis.set_px_nx k v ttl s).0 ≡ some true
      → left k (redis.set_px_nx k v ttl s).1 ≡ ttl
  pub taken_left :
      (k v w : List ℕ) (ttl : ℕ) (s : S)
      → redis.get_now k s ≡ some w
      → left k (redis.set_px_nx k v ttl s).1 ≡ left k s

module _ {S : Type 0} (redis : Redis S) (laws : RedisLaws redis) (expiry : ExpiryLaws redis) where
  -- What happens to a key during a sleep and the commands around it, when no other client writes it: its
  -- time runs down by the sleep and at most `slack` more, and it keeps its value while it has more left.
  abbrev pub RunsDown : List ℕ → List ℕ → ℕ → (Sleep → S → S) → Type 0
  RunsDown key value slack during =
      (p : Sleep) (s : S)
      → redis.get_now key s ≡ some value
      → pause p + slack < expiry.left key s
      → (redis.get_now key (during p s) ≡ some value)
        × (expiry.left key s ≤ expiry.left key (during p s) + (pause p + slack))

  -- While the key has a value and time for all attempts, every attempt fails and leaves both.
  excluded :
      (options : LockOptions) (asleep : Sleep → S → S) (random : ℕ → ℕ) (key value w : List ℕ)
      (slack left : ℕ) (s : S)
      → RunsDown key w slack asleep
      → ((n : ℕ) → random n ≤ options.retry_delay)
      → left * (options.retry_delay * 2 + slack) < expiry.left key s
      → redis.get_now key s ≡ some w
      → let result = acquire_loop redis options asleep random key value left s in
        IsLockless result.0 × (redis.get_now key result.1 ≡ some w)
  unfolding acquire_loop
  excluded options asleep random key value w slack zero s down small time here = (tt, here)
  excluded options asleep random key value w slack (suc left) s down small time here =
      let (refused, there) = laws.set_taken key value w options.ttl s here in
      let after = (redis.set_px_nx key value options.ttl s).1 in
      let turn = options.retry_delay * 2 + slack in
      let same_time = expiry.taken_left key value w options.ttl s here in
      let full : suc left * turn < expiry.left key after = omega (arith, same_time, time) in
      let next = λ (p : Sleep) (short : pause p + slack ≤ turn).
        let (kept, still) =
          down p after there (one_turn left turn (pause p + slack) _ full short) in
        excluded options asleep random key value w slack left (asleep p after) down small
          (other_turns left turn (pause p + slack) _ _ full short still) kept in
      let again =
        λ (p : Sleep). acquire_loop redis options asleep random key value left (asleep p after) in
      attempt_cases (λ (r : Acquisition × S). IsLockless r.0 × (redis.get_now key r.1 ≡ some w))
        (redis.set_px_nx key value options.ttl s).0 (left == 0) (held _, after)
        (again (retry_delay_of options (random left))) (again (after_error options.retry_delay))
        (failed, after) (λ e. absurd (refused e))
        (next (retry_delay_of options (random left))
          (short_retry options (random left) slack (small left)))
        (next (after_error options.retry_delay) (omega arith)) (tt, there)

  acquired :
      (options : LockOptions) (asleep : Sleep → S → S) (random : ℕ → ℕ) (key value : List ℕ)
      (left : ℕ) (s after : S) (lock : DistributedLock)
      → acquire_loop redis options asleep random key value left s ≡ (held lock, after)
      → (lock ≡ record { key = key; value = value; ttl = options.ttl; acquired = true })
        × (redis.get_now key after ≡ some value)
        × (expiry.left key after ≡ options.ttl)
  unfolding acquire_loop
  acquired options asleep random key value zero s after lock h = absurd (cc)
  acquired options asleep random key value (suc left) s after lock h =
      let stored = (redis.set_px_nx key value options.ttl s).1 in
      let made : DistributedLock = record {
        key = key;
        value = value;
        ttl = options.ttl;
        acquired = true;
      } in
      let again =
        λ (p : Sleep). acquire_loop redis options asleep random key value left (asleep p stored) in
      let next =
        λ (p : Sleep). acquired options asleep random key value left (asleep p stored) after lock in
      attempt_cases
        (λ (r : Acquisition × S).
          r ≡ (held lock, after)
          → (lock ≡ made)
            × (redis.get_now key after ≡ some value)
            × (expiry.left key after ≡ options.ttl))
        (redis.set_px_nx key value options.ttl s).0 (left == 0) (held made, stored)
        (again (retry_delay_of options (random left))) (again (after_error options.retry_delay))
        (failed, stored)
        (λ ok e. (
          sym (held-injective (ap (λ r. r.0) e)),
          subst (λ x. redis.get_now key x ≡ some value) (ap (λ r. r.1) e)
              (laws.set_ok key value options.ttl s ok),
          subst (λ x. expiry.left key x ≡ options.ttl) (ap (λ r. r.1) e)
              (expiry.set_left key value options.ttl s ok),
        ))
        (next (retry_delay_of options (random left))) (next (after_error options.retry_delay))
        (λ e. absurd (cc)) h

  still_valid :
      (key value : List ℕ) (ttl : ℕ) (s : S)
      → redis.get_now key s ≡ some value
      → let lock : DistributedLock = record {
        key = key;
        value = value;
        ttl = ttl;
        acquired = true;
      } in
        (redis.get key s ≡ none) ⊎ (is_lock_valid redis lock s ≡ true)
  unfolding is_lock_valid
  still_valid key value ttl s here = elim (Option-cases (redis.get key s)) [
    | inl e ↦ inl e
    | inr (v, e) ↦
        let own : redis.get key s ≡ some (some value) =
          e ∙ ap (λ x. some x) (laws.get_answered key s v e ∙ here) in
        inr (
          ap
            (λ (o : Option (Option (List ℕ))). elim o [
              | none ↦ false
              | some current ↦ is_value value current
            ])
            own
          ∙ same_refl value)
  ]

  -- A lock excludes others until it expires. `acquireLock` has returned a lock; after at most `gap`
  -- milliseconds the key still has its value, and another call for the same key begins. No other client
  -- writes the key, so that only time takes it away; and the time to live of the lock is more than `gap`
  -- and the longest time that all the attempts of the other call may take: for each twice its retry delay
  -- (the delay and the jitter) and `slack` for the commands. Then the other call ends without a lock, with
  -- null or with an error, and afterwards the lock is still valid whenever GET answers.
  pub acquire_lock-excludes :
      (options other : LockOptions) (asleep during : Sleep → S → S) (random jitter : ℕ → ℕ)
      (lock_key value rival : List ℕ) (before s start : S) (lock : DistributedLock) (gap slack : ℕ)
      → acquire_lock redis options asleep random lock_key value before ≡ (held lock, s)
      → redis.get_now (full_key lock_key) start ≡ some value
      → expiry.left (full_key lock_key) s ≤ expiry.left (full_key lock_key) start + gap
      → RunsDown (full_key lock_key) value slack during
      → ((n : ℕ) → jitter n ≤ other.retry_delay)
      → other.max_retries * (other.retry_delay * 2 + slack) + gap < options.ttl
      → let result = acquire_lock redis other during jitter lock_key rival start in
        IsLockless result.0
        × ((redis.get lock.key result.1 ≡ none) ⊎ (is_lock_valid redis lock result.1 ≡ true))
  unfolding acquire_lock is_lock_valid
  acquire_lock-excludes options other asleep during random jitter lock_key value rival before s
        start lock gap slack h here passed down small time =
      let key = full_key lock_key in
      let (made, _, full) =
        acquired options asleep random key value options.max_retries before s lock h in
      let (lockless, still) =
        excluded other during jitter key rival value slack other.max_retries start down small
          (omega (arith, passed, full, time)) here in
      let after = (acquire_lock redis other during jitter lock_key rival start).1 in
      (
        lockless,
        subst
            (λ (l : DistributedLock).
              (redis.get l.key after ≡ none) ⊎ (is_lock_valid redis l after ≡ true))
            (sym made) (still_valid key value options.ttl after still),
      )
