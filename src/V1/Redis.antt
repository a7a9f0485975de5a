-- ===== src/V1/Redis.antt =====
-- The Redis commands that the files under legacy/v1/src/auth call, as an interface: the store is any
-- type, and a reply is `none` when the client throws, with the store as it is then.
pub mod SortedSets
pub mod Writes
pub mod Sample
use secure_mcp.Shared.{
  ℕ, zero, suc, ◌+◌, ◌-◌, ◌*◌, ◌/◌, ◌%◌, ◌≤◌, ◌<◌, min, max, String, ◌≡◌, refl, sym, ap, ◌∙◌, ◌≢◌,
  ◌↔◌, ◌⊎◌, inl, inr, Bool, true, false, not, ◌&&◌, ◌||◌, Option, none, some, List, [], ◌∷◌, ◌++◌,
  map, arith, str_eq, eq_iff, ltb, leb, ◌==◌, if◌then◌else◌, ltb→lt, lt→ltb, leb→le, le→leb, ==_iff,
  Bool-cases, Option-cases, Bool-eq_of_iff, and_intro, and_left, and_right, length, all, any, keep,
  length-append, length-keep-le, take, drop, get_elem?, All, All-append, all-All, All-all, All-mono,
  In, In-append, In-append_right, codes, bit_and_31, bit_or_byte, includes, includes_iff, is_empty,
  units, is_lower, is_upper, is_digit, is_alnum, modify_at, tally, tally-append, tally-modify_at-le,
  All-modify_at, All-get_elem?, take-add, take_all, take-append_drop, length-drop, take-append,
  take-nil, drop-nil, drop-add, append-nil, append_assoc, ap₂, subst, some-injective,
}

-- TTL replies -2 for a key that is not there and -1 for one without an expiry.
pub data Ttl : Type 0 where
  no_key no_expiry : Ttl
  seconds : ℕ → Ttl

pub record Redis (S : Type 0) : Type 0 where
  pub get : List ℕ → S → Option (Option (List ℕ))
  -- SET key value PX ttl NX: whether the reply is OK.
  pub set_px_nx : List ℕ → List ℕ → ℕ → S → Option Bool × S
  pub del : List (List ℕ) → S → Option ℕ × S
  -- An EVAL of a script runs its commands at once; within it they do not fail on their own.
  pub get_now : List ℕ → S → Option (List ℕ)
  pub del_now : List ℕ → S → ℕ × S
  pub expire_now : List ℕ → ℕ → S → ℕ × S
  -- Whether an EVAL reaches the server, and whether its reply comes back.
  pub is_sent : S → Bool
  pub is_answered : S → Bool
  pub ttl : List ℕ → S → Option Ttl
  -- Whether a pipeline is executed, without an error of its own.
  pub is_pipelined : S → Bool
  -- KEYS with a pattern `prefix*`.
  pub keys : List ℕ → S → Option (List (List ℕ))

-- The Lua of a script: a number as a text, and what its first `math.random()` gives, as a text. This is
-- the same at every run, since Redis seeds the generator alike each time.
pub record Lua : Type 0 where
  pub tostring : ℕ → List ℕ
  pub first_random : List ℕ

-- Up to here a number is written with all its digits.
abbrev pub last_exact : ℕ
last_exact = 100000000000000

pub record LuaLaws (lua : Lua) : Type 0 where
  pub tostring_injective :
      (a b : ℕ) → a < last_exact → b < last_exact → lua.tostring a ≡ lua.tostring b → a ≡ b

-- What the documentation of Redis says of these commands.
pub record RedisLaws {S : Type 0} (redis : Redis S) : Type 0 where
  -- Without an error GET replies the value, and SET NX sets a key exactly if it has none.
  pub get_answered :
      (k : List ℕ) (s : S) (v : Option (List ℕ)) → redis.get k s ≡ some v → v ≡ redis.get_now k s
  pub set_taken :
      (k v w : List ℕ) (ttl : ℕ) (s : S)
      → redis.get_now k s ≡ some w
      → ((redis.set_px_nx k v ttl s).0 ≢ some true)
        × (redis.get_now k (redis.set_px_nx k v ttl s).1 ≡ some w)
  pub set_ok :
      (k v : List ℕ) (ttl : ℕ) (s : S)
      → (redis.set_px_nx k v ttl s).0 ≡ some true
      → redis.get_now k (redis.set_px_nx k v ttl s).1 ≡ some v
  -- DEL replies how many keys it has removed; EXPIRE replies 1 for a key that is there, and with no
  -- seconds left it removes the key.
  pub del_there :
      (k v : List ℕ) (s : S)
      → redis.get_now k s ≡ some v
      → ((redis.del_now k s).0 ≡ 1) × (redis.get_now k (redis.del_now k s).1 ≡ none)
  pub expire_there :
      (k v : List ℕ) (t : ℕ) (s : S)
      → redis.get_now k s ≡ some v
      → ((redis.expire_now k t s).0 ≡ 1)
        × (redis.get_now k (redis.expire_now k t s).1 ≡ (if t == 0 then none else some v))

-- `redis.eval`: the script may not reach the server, and its reply may be lost.
module _ {S A : Type 0} (redis : Redis S) where
  abbrev pub delivered : Bool → Bool → A × S → S → Option A × S
  delivered false answered result s = (none, s)
  delivered true false result s = (none, result.1)
  delivered true true result s = (some result.0, result.1)

  abbrev pub eval : (S → A × S) → S → Option A × S
  eval script s = delivered (redis.is_sent s) (redis.is_answered s) (script s) s
