-- ===== src/V1/Blacklist/Everyone.antt =====
-- What `blacklistAllUserTokens` blacklists.
use secure_mcp.Shared.{ℕ, ◌≡◌, Bool, true, Option, some, List}
use secure_mcp.V1.Redis.{Redis, RedisLaws}
use secure_mcp.V1.Redis.Writes.{Writes, WriteLaws}
use secure_mcp.V1.Blacklist.{BlacklistEntry, blacklist_key, is_truthy}
use secure_mcp.V1.Blacklist.Kept.{CarriesOut, is_present, active_key}

-- Every GET is answered.
abbrev pub Answers : {S : Type 0} → Redis S → Type 0
Answers {S} redis = (k : List ℕ) (s : S) → redis.get k s ≡ some (redis.get_now k s)

module _ {S : Type 0} (redis : Redis S) (writes : Writes S) (laws : RedisLaws redis)
    (write_laws : WriteLaws redis writes) (carries : CarriesOut writes) (answers : Answers redis)
    (stringify : BlacklistEntry → List ℕ) (parse : List ℕ → Option BlacklistEntry) where
  abbrev is_active : List ℕ → S → Bool
  is_active jti s = is_truthy (redis.get_now (active_key jti) s)

  abbrev is_listed : List ℕ → S → Bool
  is_listed jti s = is_present (redis.get_now (blacklist_key jti) s)

  -- What blacklisting leaves: the listed tokens are still listed, and the active ones still active.
  abbrev Grows : S → S → Type 0
  Grows s last =
      ((jti : List ℕ) → is_listed jti s ≡ true → is_listed jti last ≡ true)
      × ((jti : List ℕ) → redis.get_now (active_key jti) last ≡ redis.get_now (active_key jti) s)
