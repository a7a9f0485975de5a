-- ===== src/V1/Lock/Timed.antt =====
-- A store of texts that expire, and two clients of one key with the default options.
use secure_mcp.Shared.{
  ℕ, ◌+◌, ◌-◌, ◌*◌, ◌≤◌, ◌<◌, ◌≡◌, refl, ap, ◌∙◌, ◌≢◌, ◌⊎◌, inl, inr, Bool, true, false, Option,
  none, some, List, [], ◌∷◌, arith, ltb, ◌==◌, if◌then◌else◌, Bool-cases, codes,
}
use secure_mcp.Http.Target.{same}
use secure_mcp.Http.Target.Sound.{same_refl}
use secure_mcp.V1.Lock.{
  DistributedLock, default_options, Sleep, held, acquire_lock, acquire_loop, is_lock_valid,
  full_key,
}
use secure_mcp.V1.Lock.Acquired.{IsLockless, ExpiryLaws, RunsDown, pause, acquire_lock-excludes}
use secure_mcp.V1.Redis.{Redis, RedisLaws, no_expiry}

-- A key has a text and the milliseconds that are left.
abbrev Entry : Type 0
Entry = Option (List ℕ × ℕ)

abbrev Store : Type 0
Store = List ℕ → Entry

abbrev put : List ℕ → Entry → Store → Store
put k e s = λ j. if same k j then e else s j

abbrev text_in : Entry → Option (List ℕ)
text_in none = none
text_in (some (v, t)) = some v

abbrev left_in : Entry → ℕ
left_in none = 0
left_in (some (v, t)) = t

abbrev set_at : List ℕ → List ℕ → ℕ → Entry → Store → Option Bool × Store
set_at k v ttl none s = (some true, put k (some (v, ttl)) s)
set_at k v ttl (some w) s = (some false, s)

abbrev expired_in : ℕ → Entry → Entry
expired_in t none = none
expired_in t (some (v, old)) = if t == 0 then none else some (v, t * 1000)

abbrev count_in : Entry → ℕ
count_in none = 0
count_in (some e) = 1

abbrev store : Redis Store
store = record {
  get = λ k s. some (text_in (s k));
  set_px_nx = λ k v ttl s. set_at k v ttl (s k) s;
  del = λ ks s. (none, s);
  get_now = λ k s. text_in (s k);
  del_now = λ k s. (count_in (s k), put k none s);
  expire_now = λ k t s. (count_in (s k), put k (expired_in t (s k)) s);
  is_sent = λ s. true;
  is_answered = λ s. true;
  ttl = λ k s. some no_expiry;
  is_pipelined = λ s. true;
  keys = λ prefix s. none;
}

put_here : (k : List ℕ) (e : Entry) (s : Store) → put k e s k ≡ e
put_here k e s = rw (same_refl k) refl

set_at-taken :
    (k v w : List ℕ) (ttl : ℕ) (e : Entry) (s : Store)
    → text_in e ≡ some w
    → text_in (s k) ≡ some w
    → ((set_at k v ttl e s).0 ≢ some true)
      × (text_in ((set_at k v ttl e s).1 k) ≡ some w)
      × (left_in ((set_at k v ttl e s).1 k) ≡ left_in (s k))
set_at-taken k v w ttl none s h here = absurd (cc)
set_at-taken k v w ttl (some x) s h here = (λ e. absurd (cc), here, refl)

set_at-ok :
    (k v : List ℕ) (ttl : ℕ) (e : Entry) (s : Store)
    → (set_at k v ttl e s).0 ≡ some true
    → (set_at k v ttl e s).1 k ≡ some (v, ttl)
set_at-ok k v ttl none s h = put_here k (some (v, ttl)) s
set_at-ok k v ttl (some x) s h = absurd (cc)

counted : (e : Entry) (v : List ℕ) → text_in e ≡ some v → count_in e ≡ 1
counted none v h = absurd (cc)
counted (some x) v h = refl

expired :
    (t : ℕ) (e : Entry) (v : List ℕ)
    → text_in e ≡ some v
    → text_in (expired_in t e) ≡ (if t == 0 then none else some v)
expired t none v h = absurd (cc)
expired t (some (w, old)) v h = elim (Bool-cases (t == 0)) [ inl e ↦ rw e refl | inr e ↦ rw e h ]

got : (e : Entry) (v : Option (List ℕ)) → some (text_in e) ≡ some v → v ≡ text_in e
got e v h = (cc)

store_laws : RedisLaws store
store_laws = record {
  get_answered = λ k s v h. got (s k) v h;
  set_taken = λ k v w ttl s h. let (a, b, _) = set_at-taken k v w ttl (s k) s h h in (a, b);
  set_ok = λ k v ttl s h. ap text_in (set_at-ok k v ttl (s k) s h);
  del_there = λ k v s h. (counted (s k) v h, ap text_in (put_here k none s));
  expire_there = λ k v t s h.
      (counted (s k) v h, ap text_in (put_here k (expired_in t (s k)) s) ∙ expired t (s k) v h);
}

abbrev expiry : ExpiryLaws store
expiry = record {
  left = λ k s. left_in (s k);
  set_left = λ k v ttl s h. ap left_in (set_at-ok k v ttl (s k) s h);
  taken_left = λ k v w ttl s h. (set_at-taken k v w ttl (s k) s h h).2;
}

-- Time passes.
abbrev aged : ℕ → Entry → Entry
aged n none = none
aged n (some (v, t)) = if ltb n t then some (v, t - n) else none

abbrev sleeping : Sleep → Store → Store
sleeping p s = λ k. aged (pause p) (s k)

aged_down :
    (n : ℕ) (e : Entry) (v : List ℕ)
    → text_in e ≡ some v
    → n + 0 < left_in e
    → (text_in (aged n e) ≡ some v) × (left_in e ≤ left_in (aged n e) + (n + 0))
aged_down n none v h k = absurd (cc)
aged_down n (some (w, t)) v h k =
    let some_left : ltb n t ≡ true = ground arith in rw some_left (h, omega arith)

abbrev key : List ℕ
key = codes "k"

runs_down : RunsDown store store_laws expiry (full_key key) (1 ∷ []) 0 sleeping
runs_down p s h k = aged_down (pause p) (s (full_key key)) (1 ∷ []) h k

abbrev fresh : Store
fresh k = none

abbrev random : ℕ → ℕ
random n = 20

abbrev mine : DistributedLock
mine = record { key = full_key key; value = 1 ∷ []; ttl = 5000; acquired = true }

abbrev locked : Store
locked = put (full_key key) (some (1 ∷ [], 5000)) fresh

first_acquires :
    acquire_lock store default_options sleeping random key (1 ∷ []) fresh ≡ (held mine, locked)
unfolding acquire_lock acquire_loop
first_acquires = refl

-- The other client comes when three seconds are left.
abbrev start : Store
start = put (full_key key) (some (1 ∷ [], 3000)) fresh

acquire_lock-excludes_example :
    let result = acquire_lock store default_options sleeping random key (2 ∷ []) start in
    IsLockless result.0
    × ((store.get mine.key result.1 ≡ none) ⊎ (is_lock_valid store mine result.1 ≡ true))
acquire_lock-excludes_example =
    acquire_lock-excludes store store_laws expiry default_options default_options sleeping sleeping
      random random key (1 ∷ []) (2 ∷ []) fresh locked start mine 2000 0 first_acquires refl
      (omega arith) runs_down (λ n. omega arith) (omega arith)
