-- ===== src/V1/Redis/Writes.antt =====
-- The writes that a pipeline holds, and the commands on strings, sets and hashes.
use secure_mcp.Shared.{
  ℕ, ◌≡◌, Bool, true, ◌&&◌, Option, none, some, List, [], ◌∷◌, ◌==◌, if◌then◌else◌, all,
}
use secure_mcp.Http.Target.{same}
use secure_mcp.V1.Redis.{Redis, Ttl}

pub data Write : Type 0 where
  setex : List ℕ → ℕ → List ℕ → Write
  sadd srem : List ℕ → List ℕ → Write
  expire : List ℕ → ℕ → Write
  del : List ℕ → Write

pub record Writes (S : Type 0) : Type 0 where
  -- `pipeline.exec()` replies for each command whether it was carried out.
  pub exec : List Write → S → Option (List Bool) × S
  pub setex_call : List ℕ → ℕ → List ℕ → S → Bool × S
  pub scard : List ℕ → S → Option ℕ
  pub smembers : List ℕ → S → Option (List (List ℕ))
  -- SCAN gives the next cursor, which is 0 at the end, and some keys with a prefix.
  pub scan : ℕ → List ℕ → ℕ → S → Option (ℕ × List (List ℕ))
  -- A pipeline of TTL commands.
  pub ttls : List (List ℕ) → S → Option (List (Option Ttl))
  pub hgetall : List ℕ → S → Option (List (List ℕ × List ℕ))
  -- MEMORY USAGE, which replies null for a key that is gone.
  pub memory_usage : List ℕ → S → Option (Option ℕ)

-- What the text at a key is after a write, and after several, if they are carried out.
abbrev pub written : Write → List ℕ → Option (List ℕ) → Option (List ℕ)
written (setex at ttl value) k old = if same at k then some value else old
written (del at) k old = if same at k then none else old
written (expire at ttl) k old = if same at k && ttl == 0 then none else old
written _ k old = old

abbrev pub all_written : List Write → List ℕ → Option (List ℕ) → Option (List ℕ)
all_written [] k old = old
all_written (w ∷ ws) k old = all_written ws k (written w k old)

-- What the documentation says of a pipeline all of whose commands are carried out.
pub record WriteLaws {S : Type 0} (redis : Redis S) (writes : Writes S) : Type 0 where
  pub exec_writes :
      (ws : List Write) (k : List ℕ) (s : S) (oks : List Bool)
      → (writes.exec ws s).0 ≡ some oks
      → all (λ b. b) oks ≡ true
      → redis.get_now k (writes.exec ws s).1 ≡ all_written ws k (redis.get_now k s)
