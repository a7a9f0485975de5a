-- ===== src/V1/RateLimiter/Tests.antt =====
-- A store with one sorted set and its laws, and sequences of calls.
use secure_mcp.Shared.{
  ℕ, ◌+◌, ◌≤◌, ◌<◌, ◌≡◌, refl, sym, ap, ◌∙◌, inl, inr, Bool, true, false, ◌&&◌, Option, none, some,
  List, [], ◌∷◌, map, arith, if◌then◌else◌, Bool-cases, All, codes, tally, ap₂,
}
use secure_mcp.Http.Target.{same}
use secure_mcp.Http.Target.Sound.{same-eq, same_refl}
use secure_mcp.V1.Redis.{Redis, LuaLaws, last_exact, no_expiry}
use secure_mcp.V1.Redis.Sample.{sample_lua}
use secure_mcp.V1.Redis.SortedSets.{SortedSets, SortedSetLaws, is_live, live_score}
use secure_mcp.V1.RateLimiter.{
  check_script, RateLimitConfig, generate, check_rate_limit, get_rate_limit_status,
}
use secure_mcp.V1.RateLimiter.Window.{admit_all, in_window, let_through}
use secure_mcp.V1.RateLimiter.Refines.{
  Call, IsQuiet, check_all, check_all-admit_all, tally-check_all-le,
}

-- The members with their scores; one without a score is gone.
abbrev Store : Type 0
Store = List (List ℕ × Option ℕ)

abbrev store : Redis Store
store = record {
  get = λ k s. none;
  set_px_nx = λ k v ttl s. (none, s);
  del = λ ks s. (some 1, []);
  get_now = λ k s. none;
  del_now = λ k s. (1, []);
  expire_now = λ k t s. (1, s);
  is_sent = λ s. true;
  is_answered = λ s. true;
  ttl = λ k s. some no_expiry;
  is_pipelined = λ s. true;
  keys = λ prefix s. none;
}

abbrev one_if : (ℕ → Bool) → Option ℕ → ℕ
one_if p none = 0
one_if p (some t) = if p t then 1 else 0

abbrev count : (ℕ → Bool) → Store → ℕ
count p [] = 0
count p (e ∷ s) = one_if p e.1 + count p s

abbrev score : List ℕ → Store → Option ℕ
score m [] = none
score m (e ∷ s) = if same e.0 m then e.1 else score m s

abbrev put : List ℕ → ℕ → Store → Store
put m t [] = (m, some t) ∷ []
put m t (e ∷ s) = if same e.0 m then (e.0, some t) ∷ s else e ∷ put m t s

abbrev swept : ℕ → ℕ → Store → Store
swept w now s = map (λ e. (e.0, live_score w now e.1)) s

abbrev sets : SortedSets Store
sets = record {
  zremrangebyscore_now = λ k now w s. (0, swept w now s);
  zcard_now = λ k s. count (λ t. true) s;
  zadd_now = λ k t m s. put m t s;
  zremrangebyscore = λ k now w s. (some 0, swept w now s);
  zcard = λ k s. some (count (λ t. true) s);
}

one_if-live :
    (p : ℕ → Bool) (w now : ℕ) (v : Option ℕ)
    → one_if p (live_score w now v) ≡ one_if (λ t. is_live w now t && p t) v
one_if-live p w now none = refl
one_if-live p w now (some t) = elim (Bool-cases (is_live w now t)) [
  | inl live ↦ rw live refl
  | inr dead ↦ rw dead refl
]

count-swept :
    (p : ℕ → Bool) (w now : ℕ) (s : Store)
    → count p (swept w now s) ≡ count (λ t. is_live w now t && p t) s
count-swept p w now [] = refl
count-swept p w now (e ∷ s) = ap₂ ◌+◌ (one_if-live p w now e.1) (count-swept p w now s)

score-swept :
    (m : List ℕ) (w now : ℕ) (s : Store) → score m (swept w now s) ≡ live_score w now (score m s)
score-swept m w now [] = refl
score-swept m w now (e ∷ s) = elim (Bool-cases (same e.0 m)) [
  | inl here ↦ rw here refl
  | inr other ↦ rw other (score-swept m w now s)
]

count-put_fresh :
    (p : ℕ → Bool) (m : List ℕ) (t : ℕ) (s : Store)
    → score m s ≡ none
    → count p (put m t s) ≡ count p s + (if p t then 1 else 0)
count-put_fresh p m t [] h = omega arith
count-put_fresh p m t ((n, v) ∷ s) h = elim (Bool-cases (same n m)) [
  | inl here ↦
      let gone : v ≡ none = sym (ap (λ b. if b then v else score m s) here) ∙ h in
      rw (here, gone) (omega arith)
  | inr other ↦
      let later = count-put_fresh p m t s (sym (ap (λ b. if b then v else score m s) other) ∙ h) in
      rw other (omega (arith, later))
]

count-put_same :
    (p : ℕ → Bool) (m : List ℕ) (t : ℕ) (s : Store)
    → score m s ≡ some t
    → count p (put m t s) ≡ count p s
count-put_same p m t [] h = absurd (cc)
count-put_same p m t ((n, v) ∷ s) h = elim (Bool-cases (same n m)) [
  | inl here ↦
      let there : v ≡ some t = sym (ap (λ b. if b then v else score m s) here) ∙ h in
      rw (here, there) refl
  | inr other ↦
      let later = count-put_same p m t s (sym (ap (λ b. if b then v else score m s) other) ∙ h) in
      rw other (omega (arith, later))
]

score-put :
    (m j : List ℕ) (t : ℕ) (s : Store)
    → score j (put m t s) ≡ (if same m j then some t else score j s)
score-put m j t [] = refl
score-put m j t ((n, v) ∷ s) = elim (Bool-cases (same n m)) [
  | inl here ↦
      let e : n ≡ m = same-eq n m here in
      elim (Bool-cases (same m j)) [
        | inl at ↦ rw (here, e, at) refl
        | inr past ↦ rw (here, e, past) refl
      ]
  | inr other ↦ elim (Bool-cases (same n j)) [
    | inl at ↦
        let e : n ≡ j = same-eq n j at in
        let apart : same m j ≡ false = ground (arith, other, same-eq m j, e, same_refl n) in
        rw (other, at, apart) refl
    | inr past ↦ rw (other, past) (score-put m j t s)
  ]
]

abbrev laws : SortedSetLaws store sets
laws = record {
  count = λ p k s. count p s;
  score = λ k m s. score m s;
  zcard_counts = λ k s. refl;
  zrem_keeps = λ p k now w s. count-swept p w now s;
  zrem_score = λ k m now w s. score-swept m w now s;
  zadd_fresh = λ p k m t s h. count-put_fresh p m t s h;
  zadd_same = λ p k m t s h. count-put_same p m t s h;
  zadd_score = λ k m j t s. score-put m j t s;
  expire_keeps = λ p k t s h. refl;
  expire_score = λ k m t s h. refl;
}

first : List ℕ → ℕ
first [] = 0
first (x ∷ xs) = x

abbrev lua_laws : LuaLaws sample_lua
unfolding first
lua_laws = record { tostring_injective = λ a b ha hb e. ap first e }

-- Two requests in ten milliseconds.
abbrev config : RateLimitConfig
config operation = record {
  window_size_ms = 10;
  max_requests = 2;
  key_prefix = codes "rate_limit:test";
}

abbrev user : List ℕ
user = codes "u"

abbrev calls_at : List ℕ → List (Call Store)
calls_at ts = map (λ t. record { now = t; drift = λ s. s }) ts

abbrev decided : List ℕ → List Bool
decided ts = check_all store sets sample_lua laws lua_laws config user generate (calls_at ts) []

abbrev times : List ℕ
times = 1 ∷ 1 ∷ 1 ∷ 2 ∷ 3 ∷ []

decisions : decided (1 ∷ 2 ∷ 3 ∷ 11 ∷ 13 ∷ []) ≡ true ∷ true ∷ false ∷ true ∷ true ∷ []
unfolding check_all check_rate_limit check_script
decisions = refl

-- The maximum is 2, and in one millisecond four requests are let through.
burst : decided times ≡ true ∷ true ∷ true ∷ true ∷ false ∷ []
unfolding check_all check_rate_limit check_script
burst = refl

IsQuiet-at :
    (ts : List ℕ) (s : Store)
    → All (λ t. t < last_exact) ts
    → IsQuiet store sets sample_lua laws lua_laws config user generate (calls_at ts) s
unfolding IsQuiet
IsQuiet-at [] s small = tt
IsQuiet-at (t ∷ ts) s (now, later) =
    ((λ p. refl, λ m. refl), refl, refl, now, IsQuiet-at ts _ later)

check_all-admit_all_example : decided times ≡ admit_all 10 2 times []
check_all-admit_all_example =
    check_all-admit_all store sets sample_lua laws lua_laws config user generate (calls_at times) []
      [] (omega arith) (λ p. refl, λ t h. refl)
      (IsQuiet-at times []
        (omega arith, (omega arith, (omega arith, (omega arith, (omega arith, tt))))))

tally-check_all-le_example :
    tally
      (in_window 10 11)
      (let_through (1 ∷ 2 ∷ 3 ∷ 11 ∷ 13 ∷ []) (decided (1 ∷ 2 ∷ 3 ∷ 11 ∷ 13 ∷ [])))
    ≤ 2
tally-check_all-le_example =
    tally-check_all-le store sets sample_lua laws lua_laws config user generate
      (calls_at (1 ∷ 2 ∷ 3 ∷ 11 ∷ 13 ∷ [])) [] 0 11 (omega arith) (λ p. refl, λ t h. refl)
      (IsQuiet-at (1 ∷ 2 ∷ 3 ∷ 11 ∷ 13 ∷ []) []
        (omega arith, (omega arith, (omega arith, (omega arith, (omega arith, tt))))))
      (omega arith, (omega arith, (omega arith, (omega arith, (omega arith, tt)))))

status :
    (get_rate_limit_status store sets sample_lua config user generate 12
      (([], some 1) ∷ (codes "m", some 5) ∷ [])).0.request_count
    ≡ 1
unfolding get_rate_limit_status
status = refl
