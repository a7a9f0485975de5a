-- ===== src/V1/Mcp/Cache/Replay.antt =====
-- What the replay cache remembers.
use secure_mcp.Shared.{
  ℕ, suc, ◌+◌, ◌≤◌, ◌<◌, ◌≡◌, refl, sym, true, false, some, List, [], ◌∷◌, arith, length, subst,
}
use secure_mcp.Http.Target.{same}
use secure_mcp.Http.Target.Sound.{same-eq, same_refl}
use secure_mcp.V1.Mcp.Cache.{
  Entry, get, set, delete, store_request_hash, is_duplicate_request, max_cache_size, cache_ttl,
}
use secure_mcp.V1.Mcp.Cache.Bounds.{length-set-le}

get-set : (es : List Entry) (h : List ℕ) (now : ℕ) → get (set es h now) h ≡ some now
unfolding get set
get-set [] h now = ground (arith, same_refl h)
get-set (e ∷ es) h now = ground (arith, same_refl h, get-set es h now)

-- Another key's entry is left alone.
other_key : (k h g : List ℕ) → same h g ≡ false → same k h ≡ true → same k g ≡ false
other_key k h g apart e = subst (λ x. same x g ≡ false) (sym (same-eq k h e)) apart

get-set-other :
    (es : List Entry) (h g : List ℕ) (now : ℕ) → same h g ≡ false → get (set es h now) g ≡ get es g
unfolding get set
get-set-other [] h g now apart = ground (arith, apart)
get-set-other (e ∷ es) h g now apart =
    ground (arith, apart, other_key e.key h g apart, get-set-other es h g now apart)

get-delete-other :
    (es : List Entry) (h g : List ℕ) → same h g ≡ false → get (delete es h) g ≡ get es g
unfolding get delete
get-delete-other [] h g apart = refl
get-delete-other (e ∷ es) h g apart =
    ground (arith, other_key e.key h g apart, get-delete-other es h g apart)

-- An entry in its time makes its message a duplicate.
pub remembered :
    (now time : ℕ) (h : List ℕ) (cache : List Entry)
    → get cache h ≡ some time
    → now < time + cache_ttl
    → is_duplicate_request now h cache ≡ (true, cache)
unfolding is_duplicate_request
remembered now time h cache found fresh = ground (arith, found, fresh)

-- A stored hash is found, and a store in a cache with room forgets no other.
pub store_request_hash-get :
    (now stored : ℕ) (h : List ℕ) (cache : List Entry)
    → get (store_request_hash now stored h cache) h ≡ some stored
unfolding store_request_hash
store_request_hash-get now stored h cache = get-set _ h stored

pub store_request_hash-get-other :
    (now stored : ℕ) (h g : List ℕ) (cache : List Entry)
    → length cache < max_cache_size
    → same h g ≡ false
    → (get (store_request_hash now stored h cache) g ≡ get cache g)
      × (length (store_request_hash now stored h cache) ≤ suc (length cache))
unfolding store_request_hash
store_request_hash-get-other now stored h g cache room apart =
    ground (arith, room, get-set-other cache h g stored apart, length-set-le cache h stored)

pub is_duplicate_request-get-other :
    (now : ℕ) (h g : List ℕ) (cache : List Entry)
    → same h g ≡ false
    → get (is_duplicate_request now h cache).1 g ≡ get cache g
unfolding is_duplicate_request
is_duplicate_request-get-other now h g cache apart =
    ground (arith, get-delete-other cache h g apart)
