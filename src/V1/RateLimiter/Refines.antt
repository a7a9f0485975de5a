-- ===== src/V1/RateLimiter/Refines.antt =====
-- The limiter and the sliding window over distinct milliseconds.
use secure_mcp.Shared.{
  ℕ, ◌+◌, ◌≤◌, ◌<◌, ◌≡◌, refl, sym, ap, ◌∙◌, inl, inr, Bool, true, false, ◌&&◌, ◌||◌, Option, none,
  some, List, [], ◌∷◌, ◌++◌, map, arith, ltb, ◌==◌, if◌then◌else◌, Bool-cases, Bool-eq_of_iff,
  length, all, any, keep, length-append, take, All, tally, tally-append, take_all, take-append, ap₂,
  subst,
}
use secure_mcp.Http.Target.{same}
use secure_mcp.Http.Target.Sound.{same_refl, same-eq}
use secure_mcp.V1.Redis.{Redis, Lua, LuaLaws, last_exact}
use secure_mcp.V1.Redis.SortedSets.{SortedSets, SortedSetLaws, is_live, live_score}
use secure_mcp.V1.RateLimiter.{
  counted_script, member_of, ceil_seconds, RateLimitOptions, check_script, RateLimitConfig,
  Operation, key_of, check_rate_limit,
}
use secure_mcp.V1.RateLimiter.Window.{
  admit_all-burst, with_time, keep_in, keep_out, admit, admit_all, IsOrdered, in_window,
  let_through, tally-admit_all-le,
}

tally-true : (log : List ℕ) → tally (λ t. true) log ≡ length log
tally-true [] = refl
tally-true (t ∷ log) = omega (arith, tally-true log)

some_seconds : (w : ℕ) → 1 ≤ w → 1 ≤ ceil_seconds w
some_seconds w h = omega arith

added :
    (p : ℕ → Bool) (log : List ℕ) (now n : ℕ)
    → n ≡ tally p log
    → n + (if p now then 1 else 0) ≡ tally p (log ++ now ∷ [])
added p log now n h = omega (arith, h, tally-append p log (now ∷ []))

tally-keep : (p q : ℕ → Bool) (log : List ℕ) → tally (λ t. q t && p t) log ≡ tally p (keep q log)
tally-keep p q [] = refl
tally-keep p q (t ∷ log) = ground (arith, tally-keep p q log)

eq_self : (n : ℕ) → (n == n) ≡ true
eq_self n = ground arith

and_false : (b c : Bool) → c ≡ false → (b && c) ≡ false
and_false b c h = ground (arith, h)

or_true : (a b : Bool) → b ≡ true → (a || b) ≡ true
or_true a b h = ground (arith, h)

or_false : (a b : Bool) → b ≡ false → (a || b) ≡ a
or_false a b h = ground (arith, h)

-- Whether a log has a time, as the score of its entry.
abbrev pub entry : ℕ → List ℕ → Option ℕ
entry t log = if any (λ u. u == t) log then some t else none

entry-keep :
    (q : ℕ → Bool) (t : ℕ) (log : List ℕ)
    → any (λ u. u == t) (keep q log) ≡ (any (λ u. u == t) log && q t)
entry-keep q t [] = refl
entry-keep q t (u ∷ log) = elim (Bool-cases (u == t)) [
  | inl here ↦
      let e : u ≡ t = ground (arith, here) in
      elim (Bool-cases (q t)) [
        | inl stays ↦
            ap (any (λ v. v == t)) (keep_in q u log (ap q e ∙ stays)) ∙ rw (here, stays) refl
        | inr goes ↦
            ap (any (λ v. v == t)) (keep_out q u log (ap q e ∙ goes))
            ∙ entry-keep q t log
            ∙ and_false _ _ goes
            ∙ sym (and_false _ _ goes)
      ]
  | inr other ↦ elim (Bool-cases (q u)) [
    | inl stays ↦ ap (any (λ v. v == t)) (keep_in q u log stays) ∙ rw other (entry-keep q t log)
    | inr goes ↦ ap (any (λ v. v == t)) (keep_out q u log goes) ∙ rw other (entry-keep q t log)
  ]
]

live_entry :
    (window now t : ℕ) (log : List ℕ)
    → live_score window now (entry t log) ≡ entry t (keep (is_live window now) log)
live_entry window now t log = elim (Bool-cases (any (λ u. u == t) log)) [
  | inl there ↦ rw (there, entry-keep (is_live window now) t log, there) refl
  | inr gone ↦ rw (gone, entry-keep (is_live window now) t log, gone) refl
]

cancel : (a b c : List ℕ) → a ++ c ≡ b ++ c → a ≡ b
cancel a b c h =
    let sizes : length a ≡ length b =
      omega (arith, length-append a c, length-append b c, ap (λ xs. length xs) h) in
    sym (take-append (length a) a c (omega arith) ∙ take_all a)
    ∙ ap (λ xs. take (length a) xs) h
    ∙ take-append (length a) b c (omega (arith, sizes))
    ∙ ap (λ n. take n b) sizes
    ∙ take_all b

-- Two members are the same text exactly if their times are the same.
same-member_of :
    (lua : Lua)
    → LuaLaws lua
    → (a b : ℕ) → a < last_exact
    → b < last_exact
    → same (member_of lua a) (member_of lua b) ≡ (a == b)
same-member_of lua laws a b ha hb =
    Bool-eq_of_iff (same (member_of lua a) (member_of lua b)) (a == b)
      (λ h.
        let e : a ≡ b =
          laws.tostring_injective a b ha hb
            (cancel (lua.tostring a) (lua.tostring b) (b':' ∷ lua.first_random) (same-eq _ _ h)) in
        rw e (eq_self b))
      (λ h. let e : a ≡ b = ground (arith, h) in rw e (same_refl (member_of lua b)))

-- One call of the limiter: its time, and what happens to the store before it.
pub record Call (S : Type 0) : Type 0 where
  pub now : ℕ
  pub drift : S → S

entry_there :
    (now t : ℕ) (live : List ℕ)
    → any (λ u. u == now) live ≡ true
    → (if now == t then some now else entry t live) ≡ entry t live
entry_there now t live there = elim (Bool-cases (now == t)) [
  | inl e ↦
      let same_time : now ≡ t = ground (arith, e) in
      rw (e, ap (λ n. any (λ u. u == n) live) (sym same_time) ∙ there) (ap some same_time)
  | inr apart ↦ rw apart refl
]

any-added :
    (now t : ℕ) (live : List ℕ)
    → any (λ u. u == t) (live ++ now ∷ []) ≡ (any (λ u. u == t) live || (now == t))
any-added now t [] = ground arith
any-added now t (u ∷ live) = ground (arith, any-added now t live)

entry_added :
    (now t : ℕ) (live : List ℕ)
    → (if now == t then some now else entry t live) ≡ entry t (live ++ now ∷ [])
entry_added now t live = elim (Bool-cases (now == t)) [
  | inl e ↦
      let same_time : now ≡ t = ground (arith, e) in
      rw (e, any-added now t live ∙ or_true _ _ e) (ap some same_time)
  | inr apart ↦ rw (apart, any-added now t live ∙ or_false _ _ apart) refl
]

module _ {S : Type 0} (redis : Redis S) (sets : SortedSets S) (lua : Lua)
    (laws : SortedSetLaws redis sets) (lua_laws : LuaLaws lua) where
  -- The set at a key has an entry for each time of a log, and counts as the log does.
  abbrev pub Observes : List ℕ → S → List ℕ → Type 0
  Observes key s log =
      ((p : ℕ → Bool) → laws.count p key s ≡ tally p log)
      × ((t : ℕ) → t < last_exact → laws.score key (member_of lua t) s ≡ entry t log)

  -- The live entries of the set at a key are the same in two stores.
  abbrev pub SameLive : List ℕ → ℕ → ℕ → S → S → Type 0
  SameLive key window now s s' =
      ((p : ℕ → Bool)
        → laws.count (λ t. is_live window now t && p t) key s'
          ≡ laws.count (λ t. is_live window now t && p t) key s)
      × ((m : List ℕ)
          → live_score window now (laws.score key m s')
            ≡ live_score window now (laws.score key m s))

  -- What is asked of the surroundings of the calls: before each, the live entries of the set stay as
  -- they are (the key may expire when none is left), EVAL reaches the server and is answered, and the
  -- time is one that Lua writes with all its digits.
  unfoldable pub IsQuiet : RateLimitConfig → List ℕ → Operation → List (Call S) → S → Type 0
  IsQuiet config user operation [] s = Unit
  IsQuiet config user operation (c ∷ calls) s =
      let options = config operation in
      let before = c.drift s in
      SameLive (key_of options user) options.window_size_ms c.now s before
      × (redis.is_sent before ≡ true)
      × (redis.is_answered before ≡ true)
      × (c.now < last_exact)
      × IsQuiet config user operation calls
          (check_rate_limit redis sets lua config user operation c.now before).1

  -- The decisions of the limiter.
  unfoldable pub check_all : RateLimitConfig → List ℕ → Operation → List (Call S) → S → List Bool
  check_all config user operation [] s = []
  check_all config user operation (c ∷ calls) s =
      let (result, after) =
        check_rate_limit redis sets lua config user operation c.now (c.drift s) in
      result.allowed ∷ check_all config user operation calls after

  -- What the script does once the expired entries are gone.
  -- ZADD of a call's member on a set that has the entries of a log.
  zadd_observed :
      (key : List ℕ) (now : ℕ) (s : S) (live : List ℕ)
      → now < last_exact
      → Observes key s live
      → Observes key (sets.zadd_now key now (member_of lua now) s) (with_time now live)
  zadd_observed key now s live small (counts, scores) =
      elim (Bool-cases (any (λ t. t == now) live)) [
        | inl there ↦ rw there (
          λ p.
              laws.zadd_same p key (member_of lua now) now s
                (scores now small ∙ ap (λ b. if b then some now else none) there)
              ∙ counts p,
          λ t ht.
              laws.zadd_score key (member_of lua now) (member_of lua t) now s
              ∙ ap₂ (λ b r. if b then some now else r) (same-member_of lua lua_laws now t small ht)
                  (scores t ht)
              ∙ entry_there now t live there,
        )
        | inr fresh ↦ rw fresh (
          λ p.
              laws.zadd_fresh p key (member_of lua now) now s
                (scores now small ∙ ap (λ b. if b then some now else none) fresh)
              ∙ added p live now (laws.count p key s) (counts p),
          λ t ht.
              laws.zadd_score key (member_of lua now) (member_of lua t) now s
              ∙ ap₂ (λ b r. if b then some now else r) (same-member_of lua lua_laws now t small ht)
                  (scores t ht)
              ∙ entry_added now t live,
        )
      ]

  counted_admits :
      (options : RateLimitOptions) (key : List ℕ) (now : ℕ) (s : S) (live : List ℕ)
      → 1 ≤ options.window_size_ms
      → now < last_exact
      → Observes key s live
      → let r = counted_script redis sets lua options key now s in
        let spec : Bool × List ℕ =
          if ltb (length live) options.max_requests
          then (true, with_time now live)
          else (false, live) in
        (r.0.is_allowed ≡ spec.0) × Observes key r.1 spec.1
  counted_admits options key now s live positive small seen =
      let most = options.max_requests in
      let size : sets.zcard_now key s ≡ length live =
        laws.zcard_counts key s ∙ seen.0 (λ t. true) ∙ tally-true live in
      let t = ceil_seconds options.window_size_ms in
      let some_time = some_seconds options.window_size_ms positive in
      let same_test : ltb (sets.zcard_now key s) most ≡ ltb (length live) most =
        ap (λ n. ltb n most) size in
      let (counts, scores) = zadd_observed key now s live small seen in
      elim (Bool-cases (ltb (length live) most)) [
        | inl room ↦
            rw (same_test ∙ room, room)
              (
                refl,
                (
                  λ p. laws.expire_keeps p key t _ some_time ∙ counts p,
                  λ u hu. laws.expire_score key _ t _ some_time ∙ scores u hu,
                ),
              )
        | inr full ↦ rw (same_test ∙ full, full) (refl, seen)
      ]

  -- The script is one step of the window.
  check_admits :
      (config : RateLimitConfig) (user : List ℕ) (operation : Operation) (now : ℕ) (s before : S)
      (log : List ℕ)
      → let options = config operation in
        let key = key_of options user in
        let w = options.window_size_ms in
        1 ≤ w
        → Observes key s log
        → SameLive key w now s before
        → redis.is_sent before ≡ true
        → redis.is_answered before ≡ true
        → now < last_exact
        → let r = check_rate_limit redis sets lua config user operation now before in
          let spec = admit w options.max_requests now log in
          (r.0.allowed ≡ spec.0) × Observes key r.1 spec.1
  unfolding check_rate_limit check_script admit
  check_admits config user operation now s before log positive (counts, scores) (stays, same_scores)
        sent answered small =
      let options = config operation in
      let key = key_of options user in
      let w = options.window_size_ms in
      rw (sent, answered)
        (counted_admits options key now (sets.zremrangebyscore_now key now w before).1
          (keep (is_live w now) log) positive small
          (
            λ p.
                laws.zrem_keeps p key now w before
                ∙ stays p
                ∙ counts (λ t. is_live w now t && p t)
                ∙ tally-keep p (is_live w now) log,
            λ t ht.
                laws.zrem_score key (member_of lua t) now w before
                ∙ same_scores (member_of lua t)
                ∙ ap (λ r. live_score w now r) (scores t ht)
                ∙ live_entry w now t log,
          ))

  -- The limiter is a sliding window over distinct milliseconds, not over requests: a request in a
  -- millisecond that already has a live entry adds none, since Redis seeds the script's random number
  -- alike at each run. With the laws of the sorted sets and of Lua's number texts, a window above zero,
  -- a set that has the entries of the log, and surroundings in which before each call the live entries
  -- stay (nobody else writes the key), EVAL is answered and the time is below 10^14: the limiter lets
  -- through exactly the requests that such a window lets through, in whatever order the times come.
  pub check_all-admit_all :
      (config : RateLimitConfig) (user : List ℕ) (operation : Operation) (calls : List (Call S))
      (s : S) (log : List ℕ)
      → 1 ≤ (config operation).window_size_ms
      → Observes (key_of (config operation) user) s log
      → IsQuiet config user operation calls s
      → check_all config user operation calls s
        ≡ admit_all
            (config operation).window_size_ms
            (config operation).max_requests
            (map (λ c. c.now) calls)
            log
  unfolding check_all admit_all IsQuiet
  check_all-admit_all config user operation [] s log positive seen quiet = refl
  check_all-admit_all config user operation (c ∷ calls) s log positive seen
        (stays, sent, answered, small, later) =
      let (same_answer, seen') =
        check_admits config user operation c.now s (c.drift s) log positive seen stays sent answered
          small in
      ap₂ ◌∷◌ same_answer (check_all-admit_all config user operation calls _ _ positive seen' later)

  -- When no two calls fall into the same millisecond and the times go up, the set is empty at first,
  -- the window is above zero, the laws of the sorted sets and of Lua's number texts hold, and before
  -- each call the live entries stay, EVAL is answered and the time is below 10^14: in every stretch of
  -- time of the window's size the limiter lets through at most the maximum of requests.
  pub tally-check_all-le :
      (config : RateLimitConfig) (user : List ℕ) (operation : Operation) (calls : List (Call S))
      (s : S) (from until : ℕ)
      → 1 ≤ (config operation).window_size_ms
      → Observes (key_of (config operation) user) s []
      → IsQuiet config user operation calls s
      → IsOrdered from (map (λ c. c.now) calls)
      → tally
          (in_window (config operation).window_size_ms until)
          (let_through (map (λ c. c.now) calls) (check_all config user operation calls s))
        ≤ (config operation).max_requests
  tally-check_all-le config user operation calls s from until positive seen quiet ordered =
      let options = config operation in
      let nows = map (λ (c : Call S). c.now) calls in
      subst
        (λ bs.
          tally (in_window options.window_size_ms until) (let_through nows bs)
          ≤ options.max_requests)
        (sym (check_all-admit_all config user operation calls s [] positive seen quiet))
        (tally-admit_all-le options.window_size_ms options.max_requests until from nows ordered)

  -- In such surroundings, with a maximum above 1 and an empty set at first, however many calls fall into
  -- one millisecond, they are all let through.
  check_all-burst :
      (config : RateLimitConfig) (user : List ℕ) (operation : Operation) (calls : List (Call S))
      (s : S) (now : ℕ)
      → 1 ≤ (config operation).window_size_ms
      → 2 ≤ (config operation).max_requests
      → Observes (key_of (config operation) user) s []
      → IsQuiet config user operation calls s
      → All (λ t. t ≡ now) (map (λ (c : Call S). c.now) calls)
      → all (λ ok. ok) (check_all config user operation calls s) ≡ true
  check_all-burst config user operation calls s now positive two seen quiet same_time =
      ap (all (λ ok. ok)) (check_all-admit_all config user operation calls s [] positive seen quiet)
      ∙ admit_all-burst _ _ now _ [] positive two same_time (inl refl)
