-- ===== src/V1/Mcp/Cache.antt =====
-- legacy/v1/src/server/mcp-security.ts: the request cache against replays. A `Map` is the list of its
-- entries in the order of insertion; a hash is its text in UTF-16 code units.
pub mod Bounds
pub mod Replay
use secure_mcp.Shared.{
  ℕ, ◌+◌, ◌/◌, Bool, true, false, not, Option, none, some, List, [], ◌∷◌, ltb, leb, if◌then◌else◌,
  length, keep, take,
}
use secure_mcp.Http.Target.{same}

pub record Entry : Type 0 where
  pub key : List ℕ
  pub timestamp : ℕ

abbrev pub cache_ttl : ℕ
cache_ttl = 60000

abbrev pub max_cache_size : ℕ
max_cache_size = 1000

-- `Map.prototype.get`, `delete` and `set`; the last keeps the place of a key that is there.
unfoldable pub get : List Entry → List ℕ → Option ℕ
get [] h = none
get (e ∷ es) h = if same e.key h then some e.timestamp else get es h

unfoldable pub delete : List Entry → List ℕ → List Entry
delete es h = keep (λ e. not (same e.key h)) es

unfoldable pub set : List Entry → List ℕ → ℕ → List Entry
set [] h now = record { key = h; timestamp = now } ∷ []
set (e ∷ es) h now =
    if same e.key h then record { key = e.key; timestamp = now } ∷ es else e ∷ set es h now

-- `isDuplicateRequest`, with the cache it leaves.
unfoldable pub is_duplicate_request : ℕ → List ℕ → List Entry → Bool × List Entry
unfolding get delete
is_duplicate_request now h cache = elim (get cache h) [
  | none ↦ (false, cache)
  | some timestamp ↦
      if ltb now (timestamp + cache_ttl) then (true, cache) else (false, delete cache h)
]

-- `for (… of requestCache.entries()) if (now - value.timestamp > CACHE_TTL) requestCache.delete(key)`
unfoldable pub delete_expired : ℕ → List Entry → List Entry
delete_expired now cache = keep (λ e. not (ltb (e.timestamp + cache_ttl) now)) cache

-- `sort((a, b) => a[1].timestamp - b[1].timestamp)`, which is stable.
unfoldable pub insert_entry : Entry → List Entry → List Entry
insert_entry e [] = e ∷ []
insert_entry e (x ∷ xs) = if leb e.timestamp x.timestamp then e ∷ x ∷ xs else x ∷ insert_entry e xs

unfoldable pub sort_entries : List Entry → List Entry
unfolding insert_entry
sort_entries [] = []
sort_entries (e ∷ es) = insert_entry e (sort_entries es)

-- `for (let i = 0; i < entries.length / 2; i++) requestCache.delete(entries[i][0])`
unfoldable pub delete_keys : List Entry → List Entry → List Entry
unfolding delete
delete_keys [] cache = cache
delete_keys (e ∷ es) cache = delete_keys es (delete cache e.key)

unfoldable pub delete_oldest : List Entry → List Entry
unfolding sort_entries delete_keys
delete_oldest cache =
    let entries = sort_entries cache in delete_keys (take ((length entries + 1) / 2) entries) cache

-- The two clean-ups of a full cache.
unfoldable pub make_room : ℕ → List Entry → List Entry
unfolding delete_expired delete_oldest
make_room now cache =
    let swept = delete_expired now cache in
    if leb max_cache_size (length swept) then delete_oldest swept else swept

-- `storeRequestHash` reads the clock twice: for the clean-up and for the new entry.
unfoldable pub store_request_hash : ℕ → ℕ → List ℕ → List Entry → List Entry
unfolding make_room set
store_request_hash swept stored h cache =
    let room = if leb max_cache_size (length cache) then make_room swept cache else cache in
    set room h stored
