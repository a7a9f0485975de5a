-- ===== src/Input/Reachable.antt =====
-- What acceptance says of everything that can be reached from the arguments.
use secure_mcp.Shared.{
  ℕ, zero, suc, ◌+◌, ◌≤◌, ◌<◌, ◌≡◌, refl, sym, ap, ◌∙◌, ◌⊎◌, inl, inr, Bool, true, false, ◌||◌,
  some, List, [], ◌∷◌, arith, Bool-cases, length, In, subst,
}
use secure_mcp.Input.{
  JsValue, prim, object, Entry, Heap, push, scan, walk, within_input_element_limit, children,
  counted,
}
use secure_mcp.Input.Termination.{
  walk_prim, walk_zero, scan-Scanned, walk_object, walk-within_input_element_limit,
}

-- `Chain heap n v w`: from `v` one comes to `w` by `n` counted entries.
abbrev pub Chain : Heap → ℕ → JsValue → JsValue → Type 0
Chain heap zero v w = v ≡ w
Chain heap (suc n) prim w = ⊥
Chain heap (suc n) (object r) w = (c : JsValue) × In c (children heap r) × Chain heap n c w

abbrev pub IsUnreserved : Heap → JsValue → Type 0
IsUnreserved heap prim = Unit
IsUnreserved heap (object r) = (heap r).reserved ≡ false

-- Every chain from `v` is short and ends at a value without a reserved key.
abbrev IsSafe : Heap → ℕ → JsValue → Type 0
IsSafe heap room v = (n : ℕ) (w : JsValue) → Chain heap n v w → (n ≤ room) × IsUnreserved heap w

In-push : (x v : JsValue) (pending : List JsValue) → In x pending → In x (push v pending)
In-push x prim pending h = h
In-push x (object r) pending h = inr h

-- The inner loop keeps what is pending, and adds every counted object.
scan_keeps :
    (maximum : ℕ) (is_array : Bool) (es : List Entry) (count : ℕ) (pending : List JsValue)
    (count' : ℕ) (pending' : List JsValue) (x : JsValue)
    → scan maximum is_array es count pending ≡ some (count', pending')
    → In x pending
    → In x pending'
unfolding scan
scan_keeps m a [] count pending count' pending' x e h = subst (In x) (ground arith) h
scan_keeps m a (y ∷ es) count pending count' pending' x e h = ground (
  arith,
  scan_keeps m a es count pending count' pending' x,
  scan_keeps m a es (suc count) (push y.child pending) count' pending' x,
  In-push x y.child pending h,
)

module _ (m : ℕ) (a : Bool) (y : Entry) (es : List Entry) (count : ℕ) (pending : List JsValue)
    (p : ℕ × List JsValue) where
  scan_skipped :
      (a || y.own) ≡ false
      → scan m a (y ∷ es) count pending ≡ some p
      → scan m a es count pending ≡ some p
  unfolding scan
  scan_skipped s e = ground arith

  scan_counted :
      (a || y.own) ≡ true
      → scan m a (y ∷ es) count pending ≡ some p
      → scan m a es (suc count) (push y.child pending) ≡ some p
  unfolding scan
  scan_counted s e = ground arith

In-push_self :
    (r : ℕ) (v : JsValue) (pending : List JsValue) → v ≡ object r → In (object r) (push v pending)
In-push_self r v pending e = rw e (inl refl)

scan_adds :
    (maximum : ℕ) (is_array : Bool) (es : List Entry) (count : ℕ) (pending : List JsValue)
    (count' : ℕ) (pending' : List JsValue) (r : ℕ)
    → scan maximum is_array es count pending ≡ some (count', pending')
    → In (object r) (counted is_array es)
    → In (object r) pending'
scan_adds m a [] count pending count' pending' r e h = absurd h
scan_adds m a (y ∷ es) count pending count' pending' r e h = elim (Bool-cases (a || y.own)) [
  | inl s ↦
      let e' = scan_counted m a y es count pending (count', pending') s e in
      let h' : (y.child ≡ object r) ⊎ In (object r) (counted a es) = rw s at h in
      elim h' [
        | inl here ↦
            scan_keeps m a es (suc count) (push y.child pending) count' pending' (object r) e'
              (In-push_self r y.child pending here)
        | inr later ↦ scan_adds m a es (suc count) (push y.child pending) count' pending' r e' later
      ]
  | inr s ↦
      scan_adds m a es count pending count' pending' r
        (scan_skipped m a y es count pending (count', pending') s e) (rw s at h)
]

length-pos_of_In : (v : JsValue) (vs : List JsValue) → In v vs → 0 < length vs
length-pos_of_In v [] h = absurd h
length-pos_of_In v (x ∷ xs) h = omega arith

abbrev Reached : Heap → ℕ → ℕ → List JsValue → Type 0
Reached heap maximum count pending =
    (v : JsValue)
    → In v pending
    → (n : ℕ) (w : JsValue) → Chain heap n v w
    → (n + count ≤ maximum) × IsUnreserved heap w

-- The chains that start at an object whose children have been scanned.
from_object :
    (heap : Heap) (m r n : ℕ) (w : JsValue) (count : ℕ) (rest : List JsValue) (count' : ℕ)
    (pending : List JsValue)
    → count ≤ m
    → (heap r).reserved ≡ false
    → scan m (heap r).is_array (heap r).entries count rest ≡ some (count', pending)
    → Reached heap m count' pending
    → Chain heap n (object r) w
    → (n + count ≤ m) × IsUnreserved heap w
from_object heap m r zero w count rest count' pending h good found ih c =
    (omega arith, subst (IsUnreserved heap) c good)
from_object heap m r (suc zero) w count rest count' pending h good found ih (prim, i, c) =
    let s = scan-Scanned m (heap r).is_array (heap r).entries count rest count' pending found in
    (
      omega (arith, s.counted_all, s.bounded h, length-pos_of_In prim (children heap r) i),
      subst (IsUnreserved heap) c tt,
    )
from_object heap m r (suc (suc n)) w count rest count' pending h good found ih (prim, i, c) =
    absurd c
from_object heap m r (suc n) w count rest count' pending h good found ih (object q, i, c) =
    let s = scan-Scanned m (heap r).is_array (heap r).entries count rest count' pending found in
    let below =
      ih (object q)
        (scan_adds m (heap r).is_array (heap r).entries count rest count' pending q found i) n w
        c in
    (
      omega (arith, s.counted_all, length-pos_of_In (object q) (children heap r) i, below.0),
      below.1,
    )

from_prim :
    (heap : Heap) (m n : ℕ) (w : JsValue) (count : ℕ)
    → count ≤ m
    → Chain heap n prim w
    → (n + count ≤ m) × IsUnreserved heap w
from_prim heap m zero w count h c = (omega arith, subst (IsUnreserved heap) c tt)
from_prim heap m (suc n) w count h c = absurd c

object_safe :
    (heap : Heap) (m r count : ℕ) (rest : List JsValue) (count' : ℕ) (pending : List JsValue)
    → count ≤ m
    → (heap r).reserved ≡ false
    → scan m (heap r).is_array (heap r).entries count rest ≡ some (count', pending)
    → Reached heap m count' pending
    → Reached heap m count (object r ∷ rest)
object_safe heap m r count rest count' pending h good found ih v (inl here) n w c =
    from_object heap m r n w count rest count' pending h good found ih
      (subst (λ x. Chain heap n x w) (sym here) c)
object_safe heap m r count rest count' pending h good found ih v (inr i) n w c =
    let s = scan-Scanned m (heap r).is_array (heap r).entries count rest count' pending found in
    let below =
      ih v (scan_keeps m (heap r).is_array (heap r).entries count rest count' pending v found i) n w
        c in
    (omega (arith, s.counted_all, below.0), below.1)

walk_safe :
    (fuel : ℕ) (heap : Heap) (maximum : ℕ) (pending : List JsValue) (count : ℕ)
    → count ≤ maximum
    → walk fuel heap maximum pending count ≡ some true
    → Reached heap maximum count pending
walk_safe zero heap m pending count h e v i n w c = absurd (cc (walk_zero heap m pending count))
walk_safe (suc fuel) heap m [] count h e v i n w c = absurd i
walk_safe (suc fuel) heap m (prim ∷ rest) count h e v (inl here) n w c =
    from_prim heap m n w count h (subst (λ x. Chain heap n x w) (sym here) c)
walk_safe (suc fuel) heap m (prim ∷ rest) count h e v (inr i) n w c =
    walk_safe fuel heap m rest count h (rw walk_prim at e) v i n w c
walk_safe (suc fuel) heap m (object r ∷ rest) count h e v i n w c =
    elim (walk_object fuel heap m r rest count) [
      | inl (bad, f) ↦ absurd (cc)
      | inr (inl (good, full, f)) ↦ absurd (cc)
      | inr (inr ((count', pending), good, found, f)) ↦
          let s =
            scan-Scanned m (heap r).is_array (heap r).entries count rest count' pending found in
          object_safe heap m r count rest count' pending h good found
            (walk_safe fuel heap m pending count' (s.bounded h) (sym f ∙ e)) v i n w c
    ]

-- If the arguments are accepted, no object that can be reached from them has an own `__proto__`
-- property, and every chain of entries that starts at them has at most `maximum` members; so they
-- hold no cycle.
pub within_input_element_limit_sound :
    (heap : Heap) (v : JsValue) (maximum : ℕ)
    → within_input_element_limit heap v maximum ≡ true
    → (n : ℕ) (w : JsValue) → Chain heap n v w
    → (n ≤ maximum) × IsUnreserved heap w
within_input_element_limit_sound heap v m e n w c =
    let safe =
      walk_safe (m + 2) heap m (v ∷ []) 0 (omega arith)
        (walk-within_input_element_limit heap v m ∙ ap some e) v (inl refl) n w c in
    (omega (arith, safe.0), safe.1)
