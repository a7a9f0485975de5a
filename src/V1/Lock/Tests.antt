-- ===== src/V1/Lock/Tests.antt =====
-- A store of texts as Redis, two clients of one key, and the laws at these.
use secure_mcp.Shared.{
  ℕ, ◌≡◌, refl, sym, ap, ◌∙◌, ◌≢◌, Bool, true, false, Option, none, some, List, [], ◌∷◌, ◌==◌,
  if◌then◌else◌, codes, some-injective,
}
use secure_mcp.Http.Target.{same}
use secure_mcp.Http.Target.Sound.{same_refl}
use secure_mcp.V1.Redis.{Redis, RedisLaws, no_expiry}
use secure_mcp.V1.Lock.{DistributedLock, extend_lock, full_key}
use secure_mcp.V1.Lock.Owned.{extend_lock-own}

abbrev Store : Type 0
Store = List ℕ → Option (List ℕ)

abbrev put : List ℕ → Option (List ℕ) → Store → Store
put k v s = λ j. if same k j then v else s j

-- SET NX, at what the key has.
abbrev set_at : List ℕ → List ℕ → Option (List ℕ) → Store → Option Bool × Store
set_at k v none s = (some true, put k (some v) s)
set_at k v (some w) s = (some false, s)

abbrev del_at : List ℕ → Option (List ℕ) → Store → ℕ × Store
del_at k none s = (0, s)
del_at k (some w) s = (1, put k none s)

abbrev expire_at : List ℕ → ℕ → Option (List ℕ) → Store → ℕ × Store
expire_at k t none s = (0, s)
expire_at k t (some w) s = (1, put k (if t == 0 then none else some w) s)

abbrev store : Redis Store
store = record {
  get = λ k s. some (s k);
  set_px_nx = λ k v ttl s. set_at k v (s k) s;
  del = λ ks s. (none, s);
  get_now = λ k s. s k;
  del_now = λ k s. del_at k (s k) s;
  expire_now = λ k t s. expire_at k t (s k) s;
  is_sent = λ s. true;
  is_answered = λ s. true;
  ttl = λ k s. some no_expiry;
  is_pipelined = λ s. true;
  keys = λ prefix s. none;
}

put_here : (k : List ℕ) (v : Option (List ℕ)) (s : Store) → put k v s k ≡ v
put_here k v s = rw (same_refl k) refl

set_at-taken :
    (k v w : List ℕ) (o : Option (List ℕ)) (s : Store)
    → o ≡ some w
    → s k ≡ some w
    → ((set_at k v o s).0 ≢ some true) × ((set_at k v o s).1 k ≡ some w)
set_at-taken k v w none s e here = absurd (cc)
set_at-taken k v w (some u) s e here = (λ h. absurd (cc), here)

set_at-ok :
    (k v : List ℕ) (o : Option (List ℕ)) (s : Store)
    → (set_at k v o s).0 ≡ some true
    → (set_at k v o s).1 k ≡ some v
set_at-ok k v none s h = put_here k (some v) s
set_at-ok k v (some w) s h = absurd (cc)

del_at-there :
    (k v : List ℕ) (o : Option (List ℕ)) (s : Store)
    → o ≡ some v
    → ((del_at k o s).0 ≡ 1) × ((del_at k o s).1 k ≡ none)
del_at-there k v none s h = absurd (cc)
del_at-there k v (some w) s h = (refl, put_here k none s)

expire_at-there :
    (k v : List ℕ) (t : ℕ) (o : Option (List ℕ)) (s : Store)
    → o ≡ some v
    → ((expire_at k t o s).0 ≡ 1) × ((expire_at k t o s).1 k ≡ (if t == 0 then none else some v))
expire_at-there k v t none s h = absurd (cc)
expire_at-there k v t (some w) s h = (refl, put_here k _ s ∙ ap (λ o. if t == 0 then none else o) h)

store_laws : RedisLaws store
store_laws = record {
  get_answered = λ k s v h. sym (some-injective (s k) v h);
  set_taken = λ k v w ttl s h. set_at-taken k v w (s k) s h h;
  set_ok = λ k v ttl s h. set_at-ok k v (s k) s h;
  del_there = λ k v s h. del_at-there k v (s k) s h;
  expire_there = λ k v t s h. expire_at-there k v t (s k) s h;
}

abbrev fresh : Store
fresh k = none

abbrev key : List ℕ
key = codes "k"

abbrev mine : DistributedLock
mine = record { key = full_key key; value = 1 ∷ []; ttl = 5000; acquired = true }

abbrev locked : Store
locked = put (full_key key) (some (1 ∷ [])) fresh

extend_lock-own_example :
    let result = extend_lock store mine 999 locked in
    (result.0 ≡ true) × ((result.1.0.ttl ≡ 999) × (result.1.1 (full_key key) ≡ none))
extend_lock-own_example = extend_lock-own store store_laws mine 999 locked refl refl refl refl
