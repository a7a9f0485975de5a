-- ===== src/Input/Tests.antt =====
-- The walk on an object that holds itself and on a small tree, and the laws at these.
use secure_mcp.Shared.{
  zero, suc, ◌+◌, ◌≤◌, ◌≡◌, refl, ◌↔◌, inl, inr, true, false, some, List, [], ◌∷◌,
}
use secure_mcp.Input.{JsValue, prim, object, Entry, Node, Heap, walk, within_input_element_limit}
use secure_mcp.Input.Termination.{walk-within_input_element_limit}
use secure_mcp.Input.Reachable.{IsUnreserved, within_input_element_limit_sound}
use secure_mcp.Input.Size.{Sized, Total, within_input_element_limit_exact}

abbrev owned : JsValue → Entry
owned v = record { own = true; child = v }

abbrev plain : List Entry → Node
plain es = record { is_array = false; reserved = false; entries = es }

-- Object 0 holds itself.
abbrev ring : Heap
ring r = plain (owned (object 0) ∷ [])

-- Object 0 holds a primitive value and object 1; object 1 holds a primitive value.
abbrev tree : Heap
tree zero = plain (owned prim ∷ owned (object 1) ∷ [])
tree (suc r) = plain (owned prim ∷ [])

abbrev poisoned : Heap
poisoned zero = plain (owned (object 1) ∷ [])
poisoned (suc r) = record { is_array = false; reserved = true; entries = [] }

limit_tests :
    (within_input_element_limit ring (object 0) 40 ≡ false)
    × (within_input_element_limit tree (object 0) 3 ≡ true)
    × (within_input_element_limit tree (object 0) 2 ≡ false)
    × (within_input_element_limit poisoned (object 0) 9 ≡ false)
unfolding within_input_element_limit
limit_tests = (refl, refl, refl, refl)

walk-within_input_element_limit_example :
    walk (40 + 2) ring 40 (object 0 ∷ []) 0 ≡ some (within_input_element_limit ring (object 0) 40)
walk-within_input_element_limit_example = walk-within_input_element_limit ring (object 0) 40

within_input_element_limit_sound_example : (1 ≤ 3) × IsUnreserved tree (object 1)
within_input_element_limit_sound_example =
    within_input_element_limit_sound tree (object 0) 3 limit_tests.1 1 (object 1)
      (object 1, inr (inl refl), refl)

tree_size : Sized tree (object 0) 3
tree_size = Sized.node refl (
    Total.cons Sized.leaf
      (Total.cons (Sized.node refl (Total.cons Sized.leaf Total.nil refl)) Total.nil refl) refl)

within_input_element_limit_exact_example :
    (within_input_element_limit tree (object 0) 3 ≡ true) ↔ (3 ≤ 3)
within_input_element_limit_exact_example =
    within_input_element_limit_exact tree (object 0) 3 3 tree_size
