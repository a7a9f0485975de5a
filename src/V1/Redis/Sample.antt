-- ===== src/V1/Redis/Sample.antt =====
-- A Redis that never fails, with a function from keys to texts as its store, and its laws.
use secure_mcp.Shared.{
  ℕ, ◌≡◌, refl, ◌≢◌, Bool, true, false, Option, none, some, List, [], ◌∷◌, map, ◌==◌, if◌then◌else◌,
  codes,
}
use secure_mcp.Http.Target.{same}
use secure_mcp.Http.Target.Sound.{same_refl}
use secure_mcp.V1.Redis.{Lua, Redis, RedisLaws, no_expiry}
use secure_mcp.V1.Redis.SortedSets.{SortedSets, TextLaws}
use secure_mcp.V1.Redis.Writes.{Writes, WriteLaws, all_written}

abbrev pub Store : Type 0
Store = List ℕ → Option (List ℕ)

abbrev pub put : List ℕ → Option (List ℕ) → Store → Store
put k v s x = if same k x then v else s x

abbrev pub taken : Option (List ℕ) → Bool
taken none = false
taken (some v) = true

-- `listed` is what KEYS replies.
abbrev pub sample : List (List ℕ) → Redis Store
sample listed = record {
  get = λ k s. some (s k);
  set_px_nx = λ k v ttl s. if taken (s k) then (some false, s) else (some true, put k (some v) s);
  del = λ ks s. (some 1, s);
  get_now = λ k s. s k;
  del_now = λ k s. (if taken (s k) then 1 else 0, put k none s);
  expire_now = λ k t s. (if taken (s k) then 1 else 0, if t == 0 then put k none s else s);
  is_sent = λ s. true;
  is_answered = λ s. true;
  ttl = λ k s. some no_expiry;
  is_pipelined = λ s. true;
  keys = λ prefix s. some listed;
}

-- A text for a number, in place of Lua's.
abbrev pub sample_lua : Lua
sample_lua = record { tostring = λ n. n ∷ []; first_random = codes "0.5" }

-- Sorted sets that hold nothing.
abbrev pub sample_sets : SortedSets Store
sample_sets = record {
  zremrangebyscore_now = λ k now w s. (0, s);
  zcard_now = λ k s. 0;
  zadd_now = λ k t m s. s;
  zremrangebyscore = λ k now w s. (some 0, s);
  zcard = λ k s. some 0;
}

abbrev pub sample_writes : Writes Store
sample_writes = record {
  exec = λ ws s. (some (map (λ w. true) ws), λ k. all_written ws k (s k));
  setex_call = λ k t v s. (true, put k (some v) s);
  scard = λ k s. some 0;
  smembers = λ k s. some [];
  scan = λ cursor prefix batch s. some (0, []);
  ttls = λ ks s. some [];
  hgetall = λ k s. some [];
  memory_usage = λ k s. some none;
}

expired :
    (k v : List ℕ) (s : Store) (c : Bool)
    → s k ≡ some v
    → (if c then put k none s else s) k ≡ (if c then none else some v)
expired k v s true h = rw (same_refl k) refl
expired k v s false h = h

refused :
    (k v : List ℕ) (s : Store) (c : Bool)
    → let r : Option Bool × Store = if c then (some false, s) else (some true, put k (some v) s) in
      r.0 ≡ some true → c ≡ false
refused k v s true h = absurd (cc)
refused k v s false h = refl

elsewhere : (k j : List ℕ) (v : Option (List ℕ)) (s : Store) → same j k ≡ false → put j v s k ≡ s k
elsewhere k j v s h = rw h refl

expired_elsewhere :
    (k j : List ℕ) (s : Store) (c : Bool)
    → same j k ≡ false
    → (if c then put j none s else s) k ≡ s k
expired_elsewhere k j s true h = elsewhere k j none s h
expired_elsewhere k j s false h = refl

set_elsewhere :
    (k j v : List ℕ) (s : Store) (c : Bool)
    → same j k ≡ false
    → let r : Option Bool × Store = if c then (some false, s) else (some true, put j (some v) s) in
      r.1 k ≡ s k
set_elsewhere k j v s true h = refl
set_elsewhere k j v s false h = elsewhere k j (some v) s h

module _ (listed : List (List ℕ)) where
  taken_refused :
      (k v w : List ℕ) (ttl : ℕ) (s : Store)
      → s k ≡ some w
      → let r = (sample listed).set_px_nx k v ttl s in (r.0 ≢ some true) × (r.1 k ≡ some w)
  taken_refused k v w ttl s h = rw h (λ e. (cc), h)

  set_there :
      (k v : List ℕ) (ttl : ℕ) (s : Store)
      → let r = (sample listed).set_px_nx k v ttl s in r.0 ≡ some true → r.1 k ≡ some v
  set_there k v ttl s h = rw (refused k v s (taken (s k)) h, same_refl k) refl

  pub sample_laws : RedisLaws (sample listed)
  sample_laws = record {
    get_answered = λ k s v h. (cc);
    set_taken = taken_refused;
    set_ok = set_there;
    del_there = λ k v s h. (rw h refl, rw (same_refl k) refl);
    expire_there = λ k v t s h. (rw h refl, expired k v s (t == 0) h);
  }

  pub sample-WriteLaws : WriteLaws (sample listed) sample_writes
  sample-WriteLaws = record { exec_writes = λ ws k s oks done good. refl }

  pub sample_texts : TextLaws (sample listed) sample_sets
  sample_texts = record {
    zrem_text = λ k j now w s. refl;
    zadd_text = λ k j t m s. refl;
    expire_text = λ k j t s h. expired_elsewhere k j s (t == 0) h;
    set_text = λ k j v ttl s h. set_elsewhere k j v s (taken (s j)) h;
  }
