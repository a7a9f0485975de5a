-- ===== src/V1/Mcp/Message/Replayed.antt =====
-- A sequence of messages to one validator.
use secure_mcp.Shared.{
  ℕ, suc, ◌+◌, ◌≤◌, ◌<◌, ◌≡◌, sym, ◌∙◌, inl, inr, Bool, true, false, some, List, [], ◌∷◌, arith,
  ltb, Bool-cases, length, All, codes, ap₂, subst,
}
use secure_mcp.Http.Target.{same}
use secure_mcp.Http.Target.Sound.{same-eq}
use secure_mcp.V1.Mcp.Cache.{
  Entry, get, is_duplicate_request, store_request_hash, max_cache_size, cache_ttl,
}
use secure_mcp.V1.Mcp.Cache.Replay.{
  remembered, store_request_hash-get-other, is_duplicate_request-get-other,
}
use secure_mcp.V1.Mcp.Cache.Bounds.{length-store_request_hash, length-is_duplicate_request}
use secure_mcp.V1.Mcp.Values.{Value}
use secure_mcp.V1.Mcp.Message.{
  Host, Clock, Outcome, valid, invalid, examined, validate_message, max_message,
}
use secure_mcp.V1.Mcp.Message.Accepted.{validate_message-IsAccepted, answer}

-- The cache after some messages, each at its own time.
unfoldable pub after_messages : Host → List (Clock × List ℕ) → List Entry → List Entry
after_messages host [] cache = cache
after_messages host ((clock, message) ∷ rest) cache =
    after_messages host rest (validate_message host clock message cache).1

-- The cache that a call leaves is the one it was given, the one the look-up left, or the stored one.
answer-cache :
    (P : List Entry → Type 0) (large duplicate : Bool) (o : Outcome)
    (cache looked stored : List Entry)
    → P cache
    → P looked
    → P stored
    → P (answer large duplicate o cache looked stored).1
answer-cache P true duplicate o cache looked stored p q r = p
answer-cache P false true o cache looked stored p q r = q
answer-cache P false false (invalid e) cache looked stored p q r = q
answer-cache P false false (valid v) cache looked stored p q r = r

validate_message-cache :
    (P : List Entry → Type 0) (host : Host) (clock : Clock) (message : List ℕ) (cache : List Entry)
    → P cache
    → P (is_duplicate_request clock.checked (host.hash_message message) cache).1
    → P (
        store_request_hash clock.swept clock.stored
          (host.hash_message message)
          (is_duplicate_request clock.checked (host.hash_message message) cache).1)
    → P (validate_message host clock message cache).1
unfolding validate_message
validate_message-cache P host clock message cache p q r =
    let (duplicate, looked) =
      is_duplicate_request clock.checked (host.hash_message message) cache in
    answer-cache P (ltb max_message (length message)) duplicate (examined host message) cache looked
      (store_request_hash clock.swept clock.stored (host.hash_message message) looked) p q r

shorter : (a b : ℕ) → b ≤ max_cache_size → a ≤ b → a ≤ max_cache_size
shorter a b h k = omega (arith, h, k)

-- However many messages come, a cache of at most a thousand entries never has more than a thousand.
pub length-after_messages :
    (host : Host) (messages : List (Clock × List ℕ)) (cache : List Entry)
    → length cache ≤ max_cache_size
    → length (after_messages host messages cache) ≤ max_cache_size
unfolding after_messages
length-after_messages host [] cache h = h
length-after_messages host ((clock, message) ∷ rest) cache h =
    let looked =
      shorter _ (length cache) h
        (length-is_duplicate_request clock.checked (host.hash_message message) cache) in
    length-after_messages host rest (validate_message host clock message cache).1 (
      validate_message-cache (λ c. length c ≤ max_cache_size) host clock message cache h looked
        (length-store_request_hash clock.swept clock.stored (host.hash_message message) _ looked))

-- A duplicate leaves the cache alone.
already :
    (large : Bool) (P : List Entry → Type 0) (o : Outcome) (cache stored : List Entry)
    → P cache
    → P (answer large true o cache cache stored).1
already true P o cache stored h = h
already false P o cache stored h = h

-- One message leaves another's fresh entry in a cache that is not full.
kept_by_one :
    (host : Host) (clock : Clock) (message g : List ℕ) (time : ℕ) (cache : List Entry)
    → length cache < max_cache_size
    → get cache g ≡ some time
    → clock.checked < time + cache_ttl
    → (get (validate_message host clock message cache).1 g ≡ some time)
      × (length (validate_message host clock message cache).1 ≤ suc (length cache))
unfolding validate_message
kept_by_one host clock message g time cache room found fresh =
    let hash = host.hash_message message in
    let (duplicate, looked) = is_duplicate_request clock.checked hash cache in
    let stored = store_request_hash clock.swept clock.stored hash looked in
    let P : List Entry → Type 0 = λ c. (get c g ≡ some time) × (length c ≤ suc (length cache)) in
    let here : P cache = (found, omega arith) in
    elim (Bool-cases (same hash g)) [
      | inl e ↦
          let twice : is_duplicate_request clock.checked hash cache ≡ (true, cache) =
            remembered clock.checked time hash cache
              (subst (λ k. get cache k ≡ some time) (sym (same-eq hash g e)) found) fresh in
          let result : Bool × List Entry → Outcome × List Entry = λ d.
            answer (ltb max_message (length message)) d.0 (examined host message) cache d.1
              (store_request_hash clock.swept clock.stored hash d.1) in
          subst (λ d. P (result d).1) (sym twice)
            (already (ltb max_message (length message)) P (examined host message) cache
              (store_request_hash clock.swept clock.stored hash cache) here)
      | inr apart ↦
          let shorter : length looked ≤ length cache =
            length-is_duplicate_request clock.checked hash cache in
          let other = is_duplicate_request-get-other clock.checked hash g cache apart in
          let (kept, longer) =
            store_request_hash-get-other clock.swept clock.stored hash g looked
              (omega (arith, room, shorter)) apart in
          validate_message-cache P host clock message cache here
            (other ∙ found, omega (arith, shorter))
            (kept ∙ other ∙ found, omega (arith, shorter, longer))
    ]

kept_by_all :
    (host : Host) (messages : List (Clock × List ℕ)) (g : List ℕ) (time : ℕ) (cache : List Entry)
    → length cache + length messages ≤ max_cache_size
    → get cache g ≡ some time
    → All (λ m. m.0.checked < time + cache_ttl) messages
    → get (after_messages host messages cache) g ≡ some time
unfolding after_messages
kept_by_all host [] g time cache room found fresh = found
kept_by_all host ((clock, message) ∷ rest) g time cache room found (now, later) =
    let (kept, longer) =
      kept_by_one host clock message g time cache (omega (arith, room)) found now in
    kept_by_all host rest g time (validate_message host clock message cache).1
      (omega (arith, room, longer)) kept later

not_large : (a b : ℕ) → b ≤ a → ltb a b ≡ false
not_large a b h = ground arith

refused :
    (host : Host) (clock : Clock) (message : List ℕ) (time : ℕ) (cache : List Entry)
    → length message ≤ max_message
    → get cache (host.hash_message message) ≡ some time
    → clock.checked < time + cache_ttl
    → validate_message host clock message cache ≡ (invalid (codes "Duplicate request"), cache)
unfolding validate_message
refused host clock message time cache small found fresh =
    let hash = host.hash_message message in
    let twice : is_duplicate_request clock.checked hash cache ≡ (true, cache) =
      remembered clock.checked time hash cache found fresh in
    let result : Bool → Bool × List Entry → Outcome × List Entry = λ large d.
      answer large d.0 (examined host message) cache d.1
        (store_request_hash clock.swept clock.stored hash d.1) in
    ap₂ result (not_large max_message (length message) small) twice

-- A replay is refused. When a message has been accepted and further messages follow, all within a
-- minute of its time, then the same message is refused as a duplicate within that minute, whatever the
-- further messages are, and the cache stays as it is; as long as the cache, with an entry for each
-- further message, would stay within a thousand.
pub validate_message-replay :
    (host : Host) (clock : Clock) (message : List ℕ) (cache after : List Entry) (v : Value)
    (between : List (Clock × List ℕ)) (again : Clock)
    → validate_message host clock message cache ≡ (valid v, after)
    → length after + length between ≤ max_cache_size
    → All (λ m. m.0.checked < clock.stored + cache_ttl) between
    → again.checked < clock.stored + cache_ttl
    → validate_message host again message (after_messages host between after)
      ≡ (invalid (codes "Duplicate request"), after_messages host between after)
validate_message-replay host clock message cache after v between again ok room fresh soon =
    let (small, (accepted, found)) =
      validate_message-IsAccepted host clock message cache after v ok in
    refused host again message clock.stored (after_messages host between after) small
      (kept_by_all host between (host.hash_message message) clock.stored after room found fresh)
      soon
