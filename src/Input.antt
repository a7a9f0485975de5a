-- ===== src/Input.antt =====
-- src/input.ts: the walk over tool arguments before validation and serialization. Values stand in a
-- heap, so that a value may be shared or cyclic; a primitive value, null and a function are `prim`.
pub mod Termination
pub mod Reachable
pub mod Size
mod Tests
use secure_mcp.Shared.{
  ℕ, zero, suc, ◌+◌, Bool, true, false, ◌||◌, Option, none, some, List, [], ◌∷◌, ltb, if◌then◌else◌,
}

pub data JsValue : Type 0 where
  prim : JsValue
  object : ℕ → JsValue

-- An entry of an object as `for in` visits it: own, or inherited.
pub record Entry : Type 0 where
  pub own : Bool
  pub child : JsValue

-- `reserved` says that the object has an own property `__proto__`.
pub record Node : Type 0 where
  pub is_array : Bool
  pub reserved : Bool
  pub entries : List Entry

abbrev pub Heap : Type 0
Heap = ℕ → Node

unfoldable pub has_reserved_key : Heap → JsValue → Bool
has_reserved_key heap prim = false
has_reserved_key heap (object r) = (heap r).reserved

-- `if (child !== null && typeof child === 'object') pending.push(child)`; the top is the head.
abbrev pub push : JsValue → List JsValue → List JsValue
push prim pending = pending
push (object r) pending = object r ∷ pending

-- The two inner loops: an array counts every element, an object its own entries. `none` is the
-- early `return false`.
unfoldable pub scan : ℕ → Bool → List Entry → ℕ → List JsValue → Option (ℕ × List JsValue)
scan maximum is_array [] count pending = some (count, pending)
scan maximum is_array (e ∷ es) count pending =
    let skipped = scan maximum is_array es count pending in
    let counted = scan maximum is_array es (suc count) (push e.child pending) in
    if is_array || e.own then (if ltb maximum (suc count) then none else counted) else skipped

-- The outer loop, on fuel; `none` is a walk that has not ended.
unfoldable pub walk : ℕ → Heap → ℕ → List JsValue → ℕ → Option Bool
unfolding scan has_reserved_key
walk zero heap maximum pending count = none
walk (suc fuel) heap maximum [] count = some true
walk (suc fuel) heap maximum (prim ∷ rest) count = walk fuel heap maximum rest count
walk (suc fuel) heap maximum (object r ∷ rest) count = elim (has_reserved_key heap (object r)) [
  | true ↦ some false
  | false ↦ elim (scan maximum (heap r).is_array (heap r).entries count rest) [
    | none ↦ some false
    | some (count', pending) ↦ walk fuel heap maximum pending count'
  ]
]

-- A walk that has not ended would give no Boolean; there is none.
abbrev pub ended : Option Bool → Bool
ended none = false
ended (some b) = b

unfoldable pub within_input_element_limit : Heap → JsValue → ℕ → Bool
unfolding walk
within_input_element_limit heap v maximum = ended (walk (maximum + 2) heap maximum (v ∷ []) 0)

-- The children that the walk counts.
abbrev pub counted : Bool → List Entry → List JsValue
counted is_array [] = []
counted is_array (e ∷ es) =
    if is_array || e.own then e.child ∷ counted is_array es else counted is_array es

abbrev pub children : Heap → ℕ → List JsValue
children heap r = counted (heap r).is_array (heap r).entries

-- `validate` of deferredInputSchema: an object that is no array passes, unparsed.
unfoldable pub deferred_validate : Heap → JsValue → Option JsValue
deferred_validate heap prim = none
deferred_validate heap (object r) = if (heap r).is_array then none else some (object r)
