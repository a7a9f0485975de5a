-- ===== src/V1/Lock/Owned.antt =====
-- Releasing and extending a lock.
use secure_mcp.Shared.{
  ℕ, ◌/◌, ◌≡◌, refl, sym, ap, ◌∙◌, ◌≢◌, inl, inr, Bool, true, false, Option, none, some, List,
  arith, ltb, ◌==◌, if◌then◌else◌, Bool-cases, ap₂, subst,
}
use secure_mcp.Http.Target.{same}
use secure_mcp.Http.Target.Sound.{same-eq, same_refl}
use secure_mcp.V1.Redis.{delivered, Redis, RedisLaws}
use secure_mcp.V1.Lock.{
  DistributedLock, release_lock, extend_lock, release_script, extend_script, compare_and, eval,
  is_one_reply, released, extended,
}

module _ {S : Type 0} (redis : Redis S) where
  compare_and-other :
      (value : List ℕ) (o : Option (List ℕ)) (act : ℕ × S) (s : S)
      → o ≢ some value
      → compare_and redis value o act s ≡ (0, s)
  compare_and-other value none act s other = refl
  compare_and-other value (some current) act s other = elim (Bool-cases (same current value)) [
    | inl e ↦ absurd (other (ap (λ x. some x) (same-eq current value e)))
    | inr e ↦ rw e refl
  ]

  compare_and-own :
      (value : List ℕ) (o : Option (List ℕ)) (act : ℕ × S) (s : S)
      → o ≡ some value
      → compare_and redis value o act s ≡ act
  compare_and-own value o act s own =
      subst (λ o. compare_and redis value o act s ≡ act) (sym own) (rw (same_refl value) refl)

  -- A script that does nothing leaves the store, whether its reply arrives or not.
  delivered-idle :
      (sent answered : Bool) (s : S)
      → ((n : Option ℕ) × ((delivered redis sent answered (0, s) s ≡ (n, s))
            × (is_one_reply n ≡ false)))
  delivered-idle false answered s = (none, (refl, refl))
  delivered-idle true false s = (none, (refl, refl))
  delivered-idle true true s = (some 0, (refl, refl))

  eval-idle :
      (script : S → ℕ × S) (s : S)
      → script s ≡ (0, s)
      → (n : Option ℕ) × ((eval redis script s ≡ (n, s)) × (is_one_reply n ≡ false))
  eval-idle script s idle =
      subst
        (λ r.
          (n : Option ℕ) × ((delivered redis (redis.is_sent s) (redis.is_answered s) r s ≡ (n, s))
            × (is_one_reply n ≡ false)))
        (sym idle) (delivered-idle (redis.is_sent s) (redis.is_answered s) s)

  eval-answered :
      (script : S → ℕ × S) (act : ℕ × S) (s : S)
      → script s ≡ act
      → redis.is_sent s ≡ true
      → redis.is_answered s ≡ true
      → eval redis script s ≡ (some act.0, act.1)
  eval-answered script act s e sent answered =
      ap₂ (λ b c. delivered redis b c (script s) s) sent answered
      ∙ ap (λ r. delivered redis true true r s) e

  released-refused :
      (lock : DistributedLock) (n : Option ℕ) (s : S)
      → is_one_reply n ≡ false
      → released redis lock (n, s) ≡ (false, (lock, s))
  released-refused lock n s h = rw h refl

  extended-refused :
      (lock : DistributedLock) (t : ℕ) (n : Option ℕ) (s : S)
      → is_one_reply n ≡ false
      → extended redis lock t (n, s) ≡ (false, (lock, s))
  extended-refused lock t n s h = rw h refl

  release_lock-acquired :
      (lock : DistributedLock) (s : S)
      → lock.acquired ≡ true
      → release_lock redis lock s
        ≡ released redis lock (eval redis (release_script redis lock.key lock.value) s)
  unfolding release_lock
  release_lock-acquired lock s acquired = rw acquired refl

  extend_lock-acquired :
      (lock : DistributedLock) (new_ttl : ℕ) (s : S)
      → lock.acquired ≡ true
      → extend_lock redis lock new_ttl s
        ≡ extended redis lock new_ttl
            (eval redis (extend_script redis lock.key lock.value (new_ttl / 1000)) s)
  unfolding extend_lock
  extend_lock-acquired lock new_ttl s acquired = rw acquired refl

  -- Somebody else's lock is safe. When the key of an acquired lock has another value or none, because the
  -- lock has expired, neither `releaseLock` nor `extendLock` changes anything, in the store or in the
  -- lock, and both give false, also when the reply of the script is lost.
  release_lock-other :
      (lock : DistributedLock) (new_ttl : ℕ) (s : S)
      → lock.acquired ≡ true
      → redis.get_now lock.key s ≢ some lock.value
      → (release_lock redis lock s ≡ (false, (lock, s)))
        × (extend_lock redis lock new_ttl s ≡ (false, (lock, s)))
  release_lock-other lock new_ttl s acquired other =
      let current = redis.get_now lock.key s in
      let t = new_ttl / 1000 in
      let (n, (e, p)) =
        eval-idle (release_script redis lock.key lock.value) s
          (compare_and-other lock.value current (redis.del_now lock.key s) s other) in
      let (m, (f, q)) =
        eval-idle (extend_script redis lock.key lock.value t) s
          (compare_and-other lock.value current (redis.expire_now lock.key t s) s other) in
      (
        release_lock-acquired lock s acquired
            ∙ ap (released redis lock) e
            ∙ released-refused lock n s p,
        extend_lock-acquired lock new_ttl s acquired
            ∙ ap (extended redis lock new_ttl) f
            ∙ extended-refused lock new_ttl m s q,
      )

seconds_left : (t : ℕ) → (t / 1000 == 0) ≡ ltb t 1000
seconds_left t = ground arith

module _ {S : Type 0} (redis : Redis S) (laws : RedisLaws redis) where
  -- When the key of an acquired lock still has the lock's value and the reply of the script arrives, then
  -- `releaseLock` gives true, marks the lock as released, and the key is free.
  pub release_lock-own :
      (lock : DistributedLock) (s : S)
      → lock.acquired ≡ true
      → redis.get_now lock.key s ≡ some lock.value
      → redis.is_sent s ≡ true
      → redis.is_answered s ≡ true
      → let result = release_lock redis lock s in
        (result.0 ≡ true)
        × ((result.1.0.acquired ≡ false) × (redis.get_now lock.key result.1.1 ≡ none))
  release_lock-own lock s acquired own sent answered =
      let after = redis.del_now lock.key s in
      let e =
        eval-answered redis (release_script redis lock.key lock.value) after s
          (compare_and-own redis lock.value (redis.get_now lock.key s) after s own) sent answered in
      let (one, free) = laws.del_there lock.key lock.value s own in
      let result =
        release_lock-acquired redis lock s acquired
        ∙ ap (released redis lock) e
        ∙ ap (λ n. released redis lock (some n, after.1)) one in
      (
        ap (λ r. r.0) result,
        (ap (λ r. r.1.0.acquired) result, ap (λ r. redis.get_now lock.key r.1.1) result ∙ free),
      )

  -- With a Redis that keeps the laws, when the key of an acquired lock still has the lock's value and the
  -- reply of the script arrives, then `extendLock` gives true and the new time is in the lock. With a
  -- second or more the key keeps its value; with less it is removed, although the result is true.
  pub extend_lock-own :
      (lock : DistributedLock) (new_ttl : ℕ) (s : S)
      → lock.acquired ≡ true
      → redis.get_now lock.key s ≡ some lock.value
      → redis.is_sent s ≡ true
      → redis.is_answered s ≡ true
      → let result = extend_lock redis lock new_ttl s in
        (result.0 ≡ true)
        × ((result.1.0.ttl ≡ new_ttl)
            × (redis.get_now lock.key result.1.1
                ≡ (if ltb new_ttl 1000 then none else some lock.value)))
  extend_lock-own lock new_ttl s acquired own sent answered =
      let t = new_ttl / 1000 in
      let after = redis.expire_now lock.key t s in
      let e =
        eval-answered redis (extend_script redis lock.key lock.value t) after s
          (compare_and-own redis lock.value (redis.get_now lock.key s) after s own) sent answered in
      let (one, kept) = laws.expire_there lock.key lock.value t s own in
      let result =
        extend_lock-acquired redis lock new_ttl s acquired
        ∙ ap (extended redis lock new_ttl) e
        ∙ ap (λ n. extended redis lock new_ttl (some n, after.1)) one in
      (
        ap (λ r. r.0) result,
        (
          ap (λ r. r.1.0.ttl) result,
          ap (λ r. redis.get_now lock.key r.1.1) result
              ∙ kept
              ∙ ap (λ b. if b then none else some lock.value) (seconds_left new_ttl),
        ),
      )
