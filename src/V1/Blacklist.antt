-- ===== src/V1/Blacklist.antt =====
-- legacy/v1/src/auth/token-blacklist.ts: TokenBlacklistManager, over the Redis interface. A time is in
-- milliseconds, a text its UTF-16 code units. The writing of an entry as JSON and the reading of one are
-- parameters. `now` is what `Date.now()` gives during a call.
pub mod Kept
pub mod Everyone
mod Tests
use secure_mcp.Shared.{
  ℕ, zero, suc, ◌+◌, ◌-◌, ◌*◌, ◌/◌, ◌%◌, ◌≤◌, ◌<◌, min, max, String, ◌≡◌, refl, sym, ap, ◌∙◌, ◌≢◌,
  ◌↔◌, ◌⊎◌, inl, inr, Bool, true, false, not, ◌&&◌, ◌||◌, Option, none, some, List, [], ◌∷◌, ◌++◌,
  map, arith, str_eq, eq_iff, ltb, leb, ◌==◌, if◌then◌else◌, ltb→lt, lt→ltb, leb→le, le→leb, ==_iff,
  Bool-cases, Option-cases, Bool-eq_of_iff, and_intro, and_left, and_right, length, all, any, keep,
  length-append, length-keep-le, take, drop, get_elem?, All, All-append, all-All, All-all, All-mono,
  In, In-append, In-append_right, codes, bit_and_31, bit_or_byte, includes, includes_iff, is_empty,
  units, is_lower, is_upper, is_digit, is_alnum, modify_at, tally, tally-append, tally-modify_at-le,
  All-modify_at, All-get_elem?, take-add, take_all, take-append_drop, length-drop, take-append,
  take-nil, drop-nil, drop-add, append-nil, append_assoc, ap₂, subst, some-injective,
}
use secure_mcp.Http.Target.{starts_with}
use secure_mcp.V1.Actions.{because, Method, ◌>>=◌, ◌>>◌, pure, throw, asks, calls, catch}
use secure_mcp.V1.Redis.{Ttl, no_expiry, Redis}
use secure_mcp.V1.Redis.Writes.{Writes, Write, setex, sadd, srem, expire, del}

pub record BlacklistEntry : Type 0 where
  pub jti : List ℕ
  pub user_id : List ℕ
  pub reason : List ℕ
  pub expires_at : ℕ
  pub blacklisted_at : ℕ

abbrev pub blacklist_key : List ℕ → List ℕ
blacklist_key jti = codes "token_blacklist:" ++ jti

abbrev pub user_key : List ℕ → List ℕ
user_key user = codes "user_blacklist:" ++ user

-- `Math.ceil(milliseconds / 1000)`
abbrev pub seconds_up : ℕ → ℕ
seconds_up milliseconds = (milliseconds + 999) / 1000

-- `text.replace(part, '')`, which removes the first occurrence.
abbrev pub without : List ℕ → List ℕ → List ℕ
without part [] = []
without part (c ∷ cs) =
    let rest = without part cs in
    if starts_with part (c ∷ cs) then drop (length part) (c ∷ cs) else c ∷ rest

-- Whether a reply of GET is truthy.
abbrev pub is_truthy : Option (List ℕ) → Bool
is_truthy none = false
is_truthy (some []) = false
is_truthy (some (c ∷ cs)) = true

-- The part of a method in its `try`, and the error that the `catch` throws.
abbrev pub or_because : {S A : Type 0} → List ℕ → Method S A → Method S A
or_because text m = catch m (λ e. throw (because text e))

module _ {S : Type 0} (redis : Redis S) (writes : Writes S) (stringify : BlacklistEntry → List ℕ)
    (parse : List ℕ → Option BlacklistEntry) where
  abbrev pub execute : List Write → Method S (List Bool)
  execute ws = calls (writes.exec ws)

  -- What `addToBlacklist` puts into its pipeline.
  abbrev pub entry_writes : BlacklistEntry → ℕ → List Write
  entry_writes entry ttl =
      setex (blacklist_key entry.jti) ttl (stringify entry)
      ∷ sadd (user_key entry.user_id) entry.jti
      ∷ expire (user_key entry.user_id) ttl
      ∷ []

  -- The replies of `exec` are not looked at.
  unfoldable pub add_to_blacklist : List ℕ → List ℕ → ℕ → List ℕ → ℕ → Method S Unit
  add_to_blacklist jti user expires reason now =
      let entry : BlacklistEntry = record {
        jti = jti;
        user_id = user;
        reason = reason;
        expires_at = expires;
        blacklisted_at = now;
      } in
      or_because (codes "Failed to blacklist token: ") (
        if leb expires now
        then pure tt
        else execute (entry_writes entry (seconds_up (expires - now))) >> pure tt)

  -- An error counts as blacklisted.
  unfoldable pub is_blacklisted : List ℕ → S → Bool
  is_blacklisted jti s = elim (redis.get (blacklist_key jti) s) [
    | none ↦ true
    | some none ↦ false
    | some (some entry) ↦ true
  ]

  abbrev pub parsed : Option (List ℕ) → Option BlacklistEntry
  parsed (some (c ∷ cs)) = parse (c ∷ cs)
  parsed _ = none

  unfoldable pub get_blacklist_entry : List ℕ → S → Option BlacklistEntry
  get_blacklist_entry jti s = elim (redis.get (blacklist_key jti) s) [
    | none ↦ none
    | some data' ↦ parsed data'
  ]

  unfoldable pub remove_from_blacklist : List ℕ → List ℕ → Method S Unit
  remove_from_blacklist jti user =
      or_because (codes "Failed to remove token from blacklist: ")
        (execute (del (blacklist_key jti) ∷ srem (user_key user) jti ∷ []) >> pure tt)

  unfoldable pub has_blacklisted_tokens : List ℕ → S → Bool
  has_blacklisted_tokens user s = elim (writes.scard (user_key user) s) [
    | none ↦ false
    | some count ↦ ltb 0 count
  ]

  unfoldable pub get_user_blacklisted_tokens : List ℕ → S → List (List ℕ)
  get_user_blacklisted_tokens user s = elim (writes.smembers (user_key user) s) [
    | none ↦ []
    | some members ↦ members
  ]

  -- One turn of the loop of `blacklistAllUserTokens`: how many tokens it counts.
  unfoldable pub blacklist_one : List ℕ → List ℕ → ℕ → ℕ → List ℕ → Method S ℕ
  unfolding add_to_blacklist
  blacklist_one user reason expires now key =
      catch
        (asks (redis.get key) >>= λ value.
          if is_truthy value
          then add_to_blacklist (without (codes "active_token:") key) user expires reason now
            >> pure 1
          else pure 0)
        (λ e. pure 0)

  -- `clock` is the time when a key's turn comes.
  unfoldable pub blacklist_keys : List ℕ → List ℕ → ℕ → (List ℕ → ℕ) → List (List ℕ) → Method S ℕ
  unfolding blacklist_one
  blacklist_keys user reason expires clock [] = pure 0
  blacklist_keys user reason expires clock (k ∷ ks) = do
    n ← blacklist_one user reason expires (clock k) k
    m ← blacklist_keys user reason expires clock ks
    pure (n + m)

  unfoldable pub blacklist_all_user_tokens : List ℕ → List ℕ → ℕ → (List ℕ → ℕ) → Method S ℕ
  unfolding blacklist_keys
  blacklist_all_user_tokens user reason expires clock =
      or_because (codes "Failed to blacklist user tokens: ") do
        keys ← asks (redis.keys (codes "active_token:"))
        blacklist_keys user reason expires clock keys

  pub record BlacklistStats : Type 0 where
    pub total_blacklisted : ℕ
    pub user_blacklists : ℕ
    pub memory_usage : ℕ

  -- A key whose memory is unknown adds none.
  abbrev pub memory_of : Option (Option ℕ) → ℕ
  memory_of (some (some n)) = n
  memory_of _ = 0

  abbrev pub memory_at : List (List ℕ) → S → ℕ
  memory_at [] s = 0
  memory_at (k ∷ ks) s = memory_of (writes.memory_usage k s) + memory_at ks s

  abbrev pub stats_of : Option (List (List ℕ)) → Option (List (List ℕ)) → S → BlacklistStats
  stats_of (some tokens) (some users) s = record {
    total_blacklisted = length tokens;
    user_blacklists = length users;
    memory_usage = memory_at tokens s;
  }
  stats_of _ _ s = record { total_blacklisted = 0; user_blacklists = 0; memory_usage = 0 }

  unfoldable pub get_blacklist_stats : S → BlacklistStats
  get_blacklist_stats s =
      stats_of (redis.keys (codes "token_blacklist:") s) (redis.keys (codes "user_blacklist:") s) s

  -- A key that has no expiry, by its reply in the pipeline of TTL commands.
  abbrev pub has_no_expiry : Option Ttl → Bool
  has_no_expiry (some no_expiry) = true
  has_no_expiry _ = false

  abbrev pub expired_keys : List (List ℕ) → List (Option Ttl) → List (List ℕ)
  expired_keys (k ∷ ks) (t ∷ ts) =
      let rest = expired_keys ks ts in if has_no_expiry t then k ∷ rest else rest
  expired_keys _ _ = []

  -- One turn of the loop with the keys that SCAN gave: how many keys it deletes; `none` is a throw.
  abbrev pub delete_expired : List (List ℕ) → S → Option ℕ × S
  delete_expired [] s = (some 0, s)
  delete_expired (k ∷ ks) s = redis.del (k ∷ ks) s

  abbrev pub clean_scanned : List (List ℕ) → S → Option ℕ × S
  clean_scanned [] s = (some 0, s)
  clean_scanned (k ∷ ks) s = elim (writes.ttls (k ∷ ks) s) [
    | none ↦ (none, s)
    | some replies ↦ delete_expired (expired_keys (k ∷ ks) replies) s
  ]

  -- The loop over the cursors, with at most `fuel` SCAN commands: `none` is a loop that still runs. An
  -- error ends it with 0.
  unfoldable pub scan_loop : ℕ → ℕ → ℕ → ℕ → S → Option ℕ × S
  scan_loop zero batch cursor cleaned s = (none, s)
  scan_loop (suc fuel) batch cursor cleaned s =
      elim (writes.scan cursor (codes "token_blacklist:") batch s) [
        | none ↦ (some 0, s)
        | some (next, keys) ↦
            let (deleted, after') = clean_scanned keys s in
            elim deleted [
              | none ↦ (some 0, after')
              | some n ↦ elim (next == 0) [
                | true ↦ (some (cleaned + n), after')
                | false ↦ scan_loop fuel batch next (cleaned + n) after'
              ]
            ]
      ]

  unfoldable pub cleanup_expired_tokens : ℕ → ℕ → S → Option ℕ × S
  unfolding scan_loop
  cleanup_expired_tokens fuel batch s = scan_loop fuel batch 0 0 s

  -- Whether the timer of the periodic clean-up is set, after `initialize` and after `shutdown`; the
  -- latter is `none` while its clean-up still runs.
  abbrev pub initialize : Bool
  initialize = true

  unfoldable pub shutdown : ℕ → ℕ → S → Option Bool × S
  unfolding cleanup_expired_tokens
  shutdown fuel batch s =
      let (cleaned, after') = cleanup_expired_tokens fuel batch s in
      (elim cleaned [ none ↦ none | some n ↦ some false ], after')
