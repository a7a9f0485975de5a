-- ===== src/V1/Jwt/Kept.antt =====
-- What the limiter and the lock leave alone.
use secure_mcp.Shared.{
  ℕ, zero, suc, ◌≡◌, refl, ◌∙◌, inl, inr, Bool, true, false, List, ltb, ◌==◌, Bool-cases,
}
use secure_mcp.Http.Target.{same}
use secure_mcp.V1.Redis.{Lua, Redis, delivered}
use secure_mcp.V1.Redis.SortedSets.{SortedSets, TextLaws}
use secure_mcp.V1.RateLimiter.{
  RateLimitOptions, RateLimitOptions, RateLimitConfig, Operation, check_rate_limit, key_of,
  check_script, counted_script, member_of,
}
use secure_mcp.V1.Lock.Acquired.{attempt_cases}
use secure_mcp.V1.Lock.{
  retry_delay_of, after_error, Acquisition, held, failed, acquire_loop, LockOptions, Sleep,
}

module _ {S : Type 0} (redis : Redis S) (sets : SortedSets S) (lua : Lua)
    (texts : TextLaws redis sets) where
  -- The limiter and the lock leave the text at another key.
  counted_keeps :
      (options : RateLimitOptions) (k key : List ℕ) (now : ℕ) (s : S)
      → same key k ≡ false
      → redis.get_now k (counted_script redis sets lua options key now s).1 ≡ redis.get_now k s
  counted_keeps options k key now s other =
      elim (Bool-cases (ltb (sets.zcard_now key s) options.max_requests)) [
        | inl room ↦
            rw room
              (texts.expire_text k key _ _ other ∙ texts.zadd_text k key now (member_of lua now) s)
        | inr full ↦ rw full refl
      ]

  script_keeps :
      (options : RateLimitOptions) (k key : List ℕ) (now : ℕ) (s : S)
      → same key k ≡ false
      → redis.get_now k (check_script redis sets lua options key now s).1 ≡ redis.get_now k s
  unfolding check_script
  script_keeps options k key now s other =
      counted_keeps options k key now _ other ∙ texts.zrem_text k key now options.window_size_ms s

  pub check_keeps :
      (config : RateLimitConfig) (user : List ℕ) (operation : Operation) (now : ℕ) (k : List ℕ)
      (s : S)
      → same (key_of (config operation) user) k ≡ false
      → redis.get_now k (check_rate_limit redis sets lua config user operation now s).1
        ≡ redis.get_now k s
  unfolding check_rate_limit check_script
  check_keeps config user operation now k s other = go (redis.is_sent s) (redis.is_answered s)
    where
      go :
          (sent answered : Bool)
          → redis.get_now k
              (delivered redis sent answered
                (check_script redis sets lua
                  (config operation)
                  (key_of (config operation) user)
                  now
                  s)
                s).1
            ≡ redis.get_now k s
      go false answered = refl
      go true false = script_keeps (config operation) k (key_of (config operation) user) now s other
      go true true = script_keeps (config operation) k (key_of (config operation) user) now s other

  pub acquire_keeps :
      (options : LockOptions) (asleep : Sleep → S → S) (random : ℕ → ℕ) (k key value : List ℕ)
      (left : ℕ) (s : S)
      → same key k ≡ false
      → ((p : Sleep) (x : S) → redis.get_now k (asleep p x) ≡ redis.get_now k x)
      → redis.get_now k (acquire_loop redis options asleep random key value left s).1
        ≡ redis.get_now k s
  unfolding acquire_loop
  acquire_keeps options asleep random k key value zero s other quiet = refl
  acquire_keeps options asleep random k key value (suc left) s other quiet =
      let last = (redis.set_px_nx key value options.ttl s).1 in
      let kept = texts.set_text k key value options.ttl s other in
      let next = λ (p : Sleep).
        acquire_keeps options asleep random k key value left (asleep p last) other quiet
        ∙ quiet p last
        ∙ kept in
      let again =
        λ (p : Sleep). acquire_loop redis options asleep random key value left (asleep p last) in
      attempt_cases (λ (r : Acquisition × S). redis.get_now k r.1 ≡ redis.get_now k s)
        (redis.set_px_nx key value options.ttl s).0 (left == 0) (held _, last)
        (again (retry_delay_of options (random left))) (again (after_error options.retry_delay))
        (failed, last) (λ e. kept) (next (retry_delay_of options (random left)))
        (next (after_error options.retry_delay)) kept
