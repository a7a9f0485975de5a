-- ===== src/V1/Blacklist/Tests.antt =====
-- Runs of the blacklist with a Redis that never fails.
use secure_mcp.Shared.{
  ℕ, ◌≡◌, refl, true, Option, none, some, List, [], ◌∷◌, map, arith, all, codes,
}
use secure_mcp.V1.Actions.{ok}
use secure_mcp.V1.Redis.Sample.{Store, sample, sample_writes, sample_laws, sample-WriteLaws, put}
use secure_mcp.V1.Blacklist.{
  BlacklistEntry, add_to_blacklist, is_blacklisted, remove_from_blacklist, blacklist_key,
  cleanup_expired_tokens,
}
use secure_mcp.V1.Blacklist.Kept.{CarriesOut, active_key, add_to_blacklist-remove, is_unanswered}

abbrev stringify : BlacklistEntry → List ℕ
stringify entry = entry.jti

abbrev parse : List ℕ → Option BlacklistEntry
parse text = none

all-true : {A : Type 0} (ws : List A) → all (λ b. b) (map (λ w. true) ws) ≡ true
all-true [] = refl
all-true (w ∷ ws) = all-true ws

carries : CarriesOut sample_writes
carries ws s = (map (λ w. true) ws, refl, all-true ws)

abbrev jtis : List (List ℕ)
jtis = codes "a" ∷ codes "b" ∷ []

-- Two active tokens, of which the first was issued to another user.
abbrev store : Store
store =
    put (active_key (codes "a")) (some (codes "of another"))
      (put (active_key (codes "b")) (some (codes "of u")) (λ k. none))

add_to_blacklist-remove_example :
    (added : Store) × (removed : Store) × (add_to_blacklist
        (sample [])
        sample_writes
        stringify
        parse
        (codes "a")
        (codes "u")
        5000
        (codes "revoked")
        10
        store
      ≡ (ok tt, added))
    × (is_blacklisted (sample []) sample_writes stringify parse (codes "a") added ≡ true)
    × (remove_from_blacklist (sample []) sample_writes stringify parse (codes "a") (codes "u") added
        ≡ (ok tt, removed))
    × (is_blacklisted (sample []) sample_writes stringify parse (codes "a") removed
        ≡ is_unanswered ((sample []).get (blacklist_key (codes "a")) removed))
add_to_blacklist-remove_example =
    add_to_blacklist-remove (sample []) sample_writes (sample_laws []) (sample-WriteLaws []) carries
      stringify parse (codes "a") (codes "u") 5000 (codes "revoked") 10 (λ s. s) store (omega arith)
      (λ x. refl)

cleaned : (cleanup_expired_tokens (sample []) sample_writes stringify parse 1 1000 store).0 ≡ some 0
unfolding cleanup_expired_tokens
cleaned = refl
