-- ===== src/V1/Mcp/Cache/Bounds.antt =====
-- The size of the replay cache.
use secure_mcp.Shared.{
  ℕ, suc, ◌+◌, ◌*◌, ◌/◌, ◌≤◌, ◌≡◌, refl, sym, ap, ◌∙◌, inl, inr, Bool, true, false, not, List, [],
  ◌∷◌, ◌++◌, arith, length, any, keep, length-keep-le, take, drop, All, All-mono, In,
  take-append_drop, length-drop, subst,
}
use secure_mcp.Http.Target.{same}
use secure_mcp.Http.Target.Sound.{same_refl}
use secure_mcp.V1.Mcp.Cache.{
  Entry, set, delete, delete_expired, insert_entry, sort_entries, delete_keys, delete_oldest,
  make_room, store_request_hash, is_duplicate_request, max_cache_size,
}

length-keep-insert_entry :
    (p : Entry → Bool) (e : Entry) (es : List Entry)
    → length (keep p (insert_entry e es)) ≡ length (keep p (e ∷ es))
unfolding insert_entry
length-keep-insert_entry p e [] = refl
length-keep-insert_entry p e (x ∷ xs) = ground (arith, length-keep-insert_entry p e xs)

length-keep-sort_entries :
    (p : Entry → Bool) (es : List Entry) → length (keep p (sort_entries es)) ≡ length (keep p es)
unfolding sort_entries
length-keep-sort_entries p [] = refl
length-keep-sort_entries p (e ∷ es) =
    ground (arith, length-keep-insert_entry p e (sort_entries es), length-keep-sort_entries p es)

kept_all : (cache : List Entry) → keep (λ e. true) cache ≡ cache
kept_all [] = refl
kept_all (e ∷ es) = ap (λ xs. e ∷ xs) (kept_all es)

length-sort_entries : (es : List Entry) → length (sort_entries es) ≡ length es
length-sort_entries es =
    ap length (sym (kept_all (sort_entries es)))
    ∙ length-keep-sort_entries (λ e. true) es
    ∙ ap length (kept_all es)

-- Whether one of the entries has the key.
abbrev named : List Entry → Entry → Bool
named ks e = any (λ k. same e.key k.key) ks

delete_keys_lem :
    (ks cache : List Entry) → delete_keys ks cache ≡ keep (λ e. not (named ks e)) cache
unfolding delete_keys delete
delete_keys_lem [] cache = sym (kept_all cache)
delete_keys_lem (k ∷ ks) cache = delete_keys_lem ks (delete cache k.key) ∙ twice cache
  where
    twice :
        (cache : List Entry)
        → keep (λ e. not (named ks e)) (delete cache k.key)
          ≡ keep (λ e. not (named (k ∷ ks) e)) cache
    twice [] = refl
    twice (e ∷ es) = ground (arith, twice es)

-- An entry that is deleted is not among those that stay.
passed_over :
    (p : Entry → Bool) (ks rest : List Entry)
    → All (λ e. p e ≡ false) ks
    → length (keep p (ks ++ rest)) ≤ length rest
passed_over p [] rest h = length-keep-le p rest
passed_over p (k ∷ ks) rest (here, h) = ground (arith, here, passed_over p ks rest h)

names_itself : (ks : List Entry) → All (λ e. not (named ks e) ≡ false) ks
names_itself ks =
    All-mono (λ e. In e ks) (λ e. not (named ks e) ≡ false) ks (λ e h. found e ks h) (all_in ks)
  where
    found : (e : Entry) (ks : List Entry) → In e ks → not (named ks e) ≡ false
    found e [] h = absurd h
    found e (k ∷ ks) (inl q) = ground (arith, same_refl e.key, ap (λ x. same e.key x.key) q)
    found e (k ∷ ks) (inr h) = ground (arith, found e ks h)

    all_in : (ks : List Entry) → All (λ e. In e ks) ks
    all_in [] = tt
    all_in (k ∷ ks) =
        (inl refl, All-mono (λ e. In e ks) (λ e. In e (k ∷ ks)) ks (λ e h. inr h) (all_in ks))

length-delete_oldest : (cache : List Entry) → length (delete_oldest cache) * 2 ≤ length cache
unfolding delete_oldest
length-delete_oldest cache =
    let entries = sort_entries cache in
    let n = (length entries + 1) / 2 in
    let ks = take n entries in
    let p : Entry → Bool = λ e. not (named ks e) in
    let split : ks ++ drop n entries ≡ entries = take-append_drop n entries in
    let stay : length (keep p entries) ≤ length (drop n entries) =
      subst (λ es. length (keep p es) ≤ length (drop n entries)) split
        (passed_over p ks (drop n entries) (names_itself ks)) in
    omega (
      arith,
      ap length (delete_keys_lem ks cache),
      length-keep-sort_entries p cache,
      length-sort_entries cache,
      length-drop n entries,
      stay,
    )

pub length-set-le :
    (es : List Entry) (h : List ℕ) (now : ℕ) → length (set es h now) ≤ suc (length es)
unfolding set
length-set-le [] h now = omega arith
length-set-le (e ∷ es) h now = ground (arith, length-set-le es h now)

-- The bound on the size is kept.
pub length-store_request_hash :
    (now stored : ℕ) (h : List ℕ) (cache : List Entry)
    → length cache ≤ max_cache_size
    → length (store_request_hash now stored h cache) ≤ max_cache_size
unfolding store_request_hash make_room delete_expired
length-store_request_hash now stored h cache bound =
    let swept = delete_expired now cache in
    let shorter : length swept ≤ length cache = length-keep-le _ cache in
    ground (
      arith,
      bound,
      shorter,
      length-delete_oldest swept,
      length-set-le (delete_oldest swept) h stored,
      length-set-le swept h stored,
      length-set-le cache h stored,
    )

pub length-is_duplicate_request :
    (now : ℕ) (h : List ℕ) (cache : List Entry)
    → length (is_duplicate_request now h cache).1 ≤ length cache
unfolding is_duplicate_request delete
length-is_duplicate_request now h cache =
    ground (arith, length-keep-le (λ e. not (same e.key h)) cache)
