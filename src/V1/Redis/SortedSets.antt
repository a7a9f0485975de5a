-- ===== src/V1/Redis/SortedSets.antt =====
-- The commands on sorted sets, as an interface. A bound of ZREMRANGEBYSCORE is the difference of two
-- times, which are both given; it removes the entries up to the bound.
use secure_mcp.Shared.{
  ℕ, ◌+◌, ◌≤◌, ◌≡◌, Bool, true, false, ◌&&◌, Option, none, some, List, ltb, if◌then◌else◌,
}
use secure_mcp.Http.Target.{same}
use secure_mcp.V1.Redis.{Redis}

pub record SortedSets (S : Type 0) : Type 0 where
  -- Within a script.
  pub zremrangebyscore_now : List ℕ → ℕ → ℕ → S → ℕ × S
  pub zcard_now : List ℕ → S → ℕ
  pub zadd_now : List ℕ → ℕ → List ℕ → S → S
  -- As calls of their own, which may throw.
  pub zremrangebyscore : List ℕ → ℕ → ℕ → S → Option ℕ × S
  pub zcard : List ℕ → S → Option ℕ

-- Whether a score stays when the entries up to `now - window` are removed.
abbrev pub is_live : ℕ → ℕ → ℕ → Bool
is_live window now score = ltb now (score + window)

-- A score after the removal.
abbrev pub live_score : ℕ → ℕ → Option ℕ → Option ℕ
live_score window now none = none
live_score window now (some t) = if is_live window now t then some t else none

-- What the documentation says of the commands within a script, by what can be counted and by ZSCORE:
-- `count p k s` is the number of entries of the set at `k` whose score passes `p`, and `score k m s` the
-- score of the member `m`, if it is there.
pub record SortedSetLaws {S : Type 0} (redis : Redis S) (sets : SortedSets S) : Type 0 where
  pub count : (ℕ → Bool) → List ℕ → S → ℕ
  pub score : List ℕ → List ℕ → S → Option ℕ
  pub zcard_counts : (k : List ℕ) (s : S) → sets.zcard_now k s ≡ count (λ t. true) k s
  pub zrem_keeps :
      (p : ℕ → Bool) (k : List ℕ) (now window : ℕ) (s : S)
      → count p k (sets.zremrangebyscore_now k now window s).1
        ≡ count (λ t. is_live window now t && p t) k s
  pub zrem_score :
      (k m : List ℕ) (now window : ℕ) (s : S)
      → score k m (sets.zremrangebyscore_now k now window s).1 ≡ live_score window now (score k m s)
  -- A member that is not in the set is added; one that is there only gets the score.
  pub zadd_fresh :
      (p : ℕ → Bool) (k m : List ℕ) (t : ℕ) (s : S)
      → score k m s ≡ none
      → count p k (sets.zadd_now k t m s) ≡ count p k s + (if p t then 1 else 0)
  pub zadd_same :
      (p : ℕ → Bool) (k m : List ℕ) (t : ℕ) (s : S)
      → score k m s ≡ some t
      → count p k (sets.zadd_now k t m s) ≡ count p k s
  pub zadd_score :
      (k m j : List ℕ) (t : ℕ) (s : S)
      → score k j (sets.zadd_now k t m s) ≡ (if same m j then some t else score k j s)
  -- EXPIRE with some time left leaves the entries.
  pub expire_keeps :
      (p : ℕ → Bool) (k : List ℕ) (t : ℕ) (s : S)
      → 1 ≤ t
      → count p k (redis.expire_now k t s).1 ≡ count p k s
  pub expire_score :
      (k m : List ℕ) (t : ℕ) (s : S) → 1 ≤ t → score k m (redis.expire_now k t s).1 ≡ score k m s

-- That commands on other keys, and on sorted sets, leave the text at a key.
pub record TextLaws {S : Type 0} (redis : Redis S) (sets : SortedSets S) : Type 0 where
  pub zrem_text :
      (k j : List ℕ) (now window : ℕ) (s : S)
      → redis.get_now k (sets.zremrangebyscore_now j now window s).1 ≡ redis.get_now k s
  pub zadd_text :
      (k j : List ℕ) (t : ℕ) (m : List ℕ) (s : S)
      → redis.get_now k (sets.zadd_now j t m s) ≡ redis.get_now k s
  pub expire_text :
      (k j : List ℕ) (t : ℕ) (s : S)
      → same j k ≡ false
      → redis.get_now k (redis.expire_now j t s).1 ≡ redis.get_now k s
  pub set_text :
      (k j v : List ℕ) (ttl : ℕ) (s : S)
      → same j k ≡ false
      → redis.get_now k (redis.set_px_nx j v ttl s).1 ≡ redis.get_now k s
