-- ===== src/Input/Termination.antt =====
-- The walk ends on every heap, cyclic or not: each round pops one entry, and the entries that are
-- pushed are counted against the limit.
use secure_mcp.Shared.{
  ℕ, zero, suc, ◌+◌, ◌-◌, ◌≤◌, ◌<◌, ◌≡◌, refl, ◌≢◌, ◌⊎◌, inl, inr, Bool, true, false, Option, none,
  some, List, [], ◌∷◌, arith, Bool-cases, Option-cases, length,
}
use secure_mcp.Input.{
  JsValue, prim, object, Entry, Heap, push, scan, walk, ended, within_input_element_limit, counted,
}

length-push-le :
    (v : JsValue) (pending : List JsValue) → length (push v pending) ≤ length pending + 1
length-push-le prim pending = omega arith
length-push-le (object r) pending = omega arith

-- What a completed inner loop has done to the counter and to the stack.
pub record Scanned (maximum : ℕ) (cs : List JsValue) (count : ℕ) (pending : List JsValue)
    (count' : ℕ) (pending' : List JsValue) : Type 0 where
  pub counted_all : count' ≡ count + length cs
  pub bounded : count ≤ maximum → count' ≤ maximum
  pub few : length pending' ≤ length pending + length cs

pub scan-Scanned :
    (maximum : ℕ) (is_array : Bool) (es : List Entry) (count : ℕ) (pending : List JsValue)
    (count' : ℕ) (pending' : List JsValue)
    → scan maximum is_array es count pending ≡ some (count', pending')
    → Scanned maximum (counted is_array es) count pending count' pending'
unfolding scan
scan-Scanned m a [] count pending count' pending' e = ground arith
scan-Scanned m a (x ∷ es) count pending count' pending' e = ground (
  arith,
  scan-Scanned m a es count pending count' pending',
  scan-Scanned m a es (suc count) (push x.child pending) count' pending',
  length-push-le x.child pending,
)

-- The three ways in which a round of the walk goes on from an object.
pub walk_object :
    (fuel : ℕ) (heap : Heap) (maximum r : ℕ) (rest : List JsValue) (count : ℕ)
    → let found = scan maximum (heap r).is_array (heap r).entries count rest in
      let result = walk (suc fuel) heap maximum (object r ∷ rest) count in
      (((heap r).reserved ≡ true) × (result ≡ some false))
      ⊎ ((heap r).reserved ≡ false) × (found ≡ none) × (result ≡ some false)
      ⊎ ((p : ℕ × List JsValue) × ((heap r).reserved ≡ false)
          × (found ≡ some p)
          × (result ≡ walk fuel heap maximum p.1 p.0))
unfolding walk
walk_object fuel heap m r rest count = elim (Bool-cases (heap r).reserved) [
  | inl bad ↦ inl (bad, ground arith)
  | inr good ↦ elim (Option-cases (scan m (heap r).is_array (heap r).entries count rest)) [
    | inl full ↦ inr (inl (good, full, ground arith))
    | inr (p, e) ↦ inr (inr (p, good, e, ground arith))
  ]
]

pub walk_zero :
    (heap : Heap) (maximum : ℕ) (pending : List JsValue) (count : ℕ)
    → walk 0 heap maximum pending count ≡ none
unfolding walk
walk_zero heap m pending count = refl

pub walk_prim :
    (fuel : ℕ) (heap : Heap) (maximum : ℕ) (rest : List JsValue) (count : ℕ)
    → walk (suc fuel) heap maximum (prim ∷ rest) count ≡ walk fuel heap maximum rest count
unfolding walk
walk_prim fuel heap m rest count = refl

pub walk_nil :
    (fuel : ℕ) (heap : Heap) (maximum count : ℕ) → walk (suc fuel) heap maximum [] count ≡ some true
unfolding walk
walk_nil fuel heap m count = refl

pub walk_total :
    (fuel : ℕ) (heap : Heap) (maximum : ℕ) (pending : List JsValue) (count : ℕ)
    → count ≤ maximum
    → length pending + (maximum - count) < fuel
    → walk fuel heap maximum pending count ≢ none
walk_total zero heap m pending count h lt = absurd (omega arith)
walk_total (suc fuel) heap m [] count h lt = rw walk_nil (λ n. (cc))
walk_total (suc fuel) heap m (prim ∷ rest) count h lt =
    rw walk_prim (walk_total fuel heap m rest count h (omega arith))
walk_total (suc fuel) heap m (object r ∷ rest) count h lt =
    elim (walk_object fuel heap m r rest count) [
      | inl (bad, e) ↦ λ n. (cc)
      | inr (inl (good, full, e)) ↦ λ n. (cc)
      | inr (inr ((count', pending), good, found, e)) ↦
          let s =
            scan-Scanned m (heap r).is_array (heap r).entries count rest count' pending found in
          rw e (
            walk_total fuel heap m pending count' (s.bounded h)
              (omega (arith, s.counted_all, s.few, s.bounded h)))
    ]

ended_lem : (o : Option Bool) → o ≢ none → o ≡ some (ended o)
ended_lem none h = absurd (h refl)
ended_lem (some b) h = refl

-- The walk ends by itself on every heap, also where the value is cyclic, within a number of rounds
-- that the limit alone bounds; `within_input_element_limit` is the Boolean that it ends with.
pub walk-within_input_element_limit :
    (heap : Heap) (v : JsValue) (maximum : ℕ)
    → walk (maximum + 2) heap maximum (v ∷ []) 0 ≡ some (within_input_element_limit heap v maximum)
unfolding within_input_element_limit
walk-within_input_element_limit heap v m =
    ended_lem _ (walk_total (m + 2) heap m (v ∷ []) 0 (omega arith) (omega arith))
