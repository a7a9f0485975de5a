-- ===== src/Input/Size.antt =====
-- The walk decides the size of arguments that are a tree without reserved keys.
use secure_mcp.Shared.{
  ℕ, zero, suc, ◌+◌, ◌≤◌, ◌<◌, ◌≡◌, refl, sym, ap, ◌∙◌, ◌↔◌, inl, inr, Bool, true, false, ◌||◌,
  Option, none, some, List, [], ◌∷◌, arith, ltb, leb, Bool-cases, length, subst,
}
use secure_mcp.Input.{
  JsValue, prim, object, Entry, Heap, push, scan, walk, within_input_element_limit, children,
  counted,
}
use secure_mcp.Input.Termination.{
  walk_object, walk_zero, walk_prim, walk_nil, walk-within_input_element_limit,
}

-- `Sized heap v n`: `v` unfolds to a finite tree with `n` counted entries and no reserved key.
mutual
  pub data Sized (heap : Heap) : JsValue → ℕ → Type 0 where
    leaf : Sized heap prim zero
    node :
        {r n : ℕ}
        → (heap r).reserved ≡ false
        → Total heap (children heap r) n
        → Sized heap (object r) n

  pub data Total (heap : Heap) : List JsValue → ℕ → Type 0 where
    nil : Total heap [] zero
    cons :
        {v : JsValue} {vs : List JsValue} {m n k : ℕ}
        → Sized heap v m
        → Total heap vs n
        → k ≡ suc (m + n)
        → Total heap (v ∷ vs) k

-- The entries that are still to be counted below what is pending.
abbrev Sum : Heap → List JsValue → ℕ → Type 0
Sum heap [] k = k ≡ 0
Sum heap (v ∷ vs) k = (m : ℕ) × (n : ℕ) × Sized heap v m × Sum heap vs n × (k ≡ m + n)

Sum-push :
    (heap : Heap) (v : JsValue) (vs : List JsValue) (m n : ℕ)
    → Sized heap v m
    → Sum heap vs n
    → Sum heap (push v vs) (m + n)
Sum-push heap prim vs zero n leaf s = subst (Sum heap vs) (omega arith) s
Sum-push heap prim vs (suc m) n h s = elim h [ ]
Sum-push heap (object r) vs m n h s = (m, n, h, s, refl)

length-le_of_Total : (heap : Heap) (vs : List JsValue) (n : ℕ) → Total heap vs n → length vs ≤ n
length-le_of_Total heap [] n t = omega arith
length-le_of_Total heap (v ∷ vs) k (cons {m} {n} h t e) =
    omega (arith, length-le_of_Total heap vs n t)

Total-nil : (heap : Heap) (n : ℕ) → Total heap [] n → n ≡ 0
Total-nil heap zero nil = refl
Total-nil heap (suc n) t = elim t [ ]

-- What the inner loop does to a finite tree.
abbrev Scans : Heap → ℕ → List JsValue → ℕ → ℕ → Option (ℕ × List JsValue) → Type 0
Scans heap maximum cs count left none = maximum < count + length cs
Scans heap maximum cs count left (some (count', pending')) =
    (count' ≡ count + length cs)
    × (count ≤ maximum → count' ≤ maximum)
    × ((t : ℕ) × Sum heap pending' t × (t + length cs ≡ left))

-- One counted entry more, in front.
Scans-cons :
    (heap : Heap) (m : ℕ) (c : JsValue) (cs : List JsValue) (count left less : ℕ)
    (o : Option (ℕ × List JsValue))
    → suc count ≤ m
    → left ≡ suc less
    → Scans heap m cs (suc count) less o
    → Scans heap m (c ∷ cs) count left o
Scans-cons heap m c cs count left less none h e s = omega arith
Scans-cons heap m c cs count left less (some (count', pending)) h e (same, bound, (t, sum, total)) =
    (omega arith, λ _. bound h, (t, sum, omega arith))

Total-uncons :
    (heap : Heap) (v : JsValue) (vs : List JsValue) (k : ℕ)
    → Total heap (v ∷ vs) k
    → (m : ℕ) × (n : ℕ) × Sized heap v m × Total heap vs n × (k ≡ suc (m + n))
Total-uncons heap v vs k (cons {m} {n} h t e) = (m, n, h, t, e)

scan-Scans :
    (heap : Heap) (maximum : ℕ) (a : Bool) (es : List Entry) (count : ℕ) (pending : List JsValue)
    (n s : ℕ)
    → Total heap (counted a es) n
    → Sum heap pending s
    → Scans heap maximum (counted a es) count (n + s) (scan maximum a es count pending)
unfolding scan
scan-Scans heap m a [] count pending n s t h =
    (omega arith, λ c. omega arith, (s, h, omega (arith, Total-nil heap n t)))
scan-Scans heap m a (y ∷ es) count pending n s t h = elim (Bool-cases (a || y.own)) [
  | inr skip ↦ simp skip (scan-Scans heap m a es count pending n s (rw skip at t) h)
  | inl take_it ↦
      let (k, rest, first, others, e) =
        Total-uncons heap y.child (counted a es) n (rw take_it at t) in
      elim (Bool-cases (ltb m (suc count))) [
        | inl full ↦ simp (take_it, full) (ground arith)
        | inr room ↦
            simp (take_it, room)
              (Scans-cons heap m y.child (counted a es) count (n + s) (rest + (k + s)) _
                (ground arith) (omega arith)
                (scan-Scans heap m a es (suc count) (push y.child pending) rest (k + s) others
                  (Sum-push heap y.child pending k s first h)))
      ]
]

-- A round of the walk from the root of a finite tree.
object-leb :
    (fuel : ℕ) (heap : Heap) (m r count k n : ℕ) (rest : List JsValue) (b : Bool)
    → (heap r).reserved ≡ false
    → Total heap (children heap r) k
    → Sum heap rest n
    → count ≤ m
    → walk (suc fuel) heap m (object r ∷ rest) count ≡ some b
    → ((count' : ℕ) (pending : List JsValue) (t : ℕ)
        → Sum heap pending t
        → count' ≤ m
        → walk fuel heap m pending count' ≡ some b
        → b ≡ leb (t + count') m)
    → b ≡ leb (k + n + count) m
object-leb fuel heap m r count k n rest b good t h c e ih =
    let sc = scan-Scans heap m (heap r).is_array (heap r).entries count rest k n t h in
    elim (walk_object fuel heap m r rest count) [
      | inl (bad, f) ↦ absurd (cc)
      | inr (inl (_, full, f)) ↦
          let over : m < count + length (children heap r) =
            subst (Scans heap m (children heap r) count (k + n)) full sc in
          ground (arith, length-le_of_Total heap (children heap r) k t)
      | inr (inr ((count', pending), _, found, f)) ↦
          let (same, bound, (u, sum, total)) : Scans heap m (children heap r) count (k + n)
              (some (count', pending)) =
            subst (Scans heap m (children heap r) count (k + n)) found sc in
          ih count' pending u sum (bound c) (sym f ∙ e) ∙ ap (λ x. leb x m) (omega arith)
    ]

walk-leb :
    (fuel : ℕ) (heap : Heap) (maximum : ℕ) (pending : List JsValue) (count s : ℕ) (b : Bool)
    → Sum heap pending s
    → count ≤ maximum
    → walk fuel heap maximum pending count ≡ some b
    → b ≡ leb (s + count) maximum
walk-leb zero heap m pending count s b h c e = absurd (cc (walk_zero heap m pending count))
walk-leb (suc fuel) heap m [] count s b h c e = ground (arith, walk_nil fuel heap m count)
walk-leb (suc fuel) heap m (prim ∷ rest) count s b (zero, n, leaf, h, q) c e =
    walk-leb fuel heap m rest count n b h c (rw walk_prim at e)
    ∙ ap (λ k. leb (k + count) m) (omega arith)
walk-leb (suc fuel) heap m (prim ∷ rest) count s b (suc _, n, l, h, q) c e = elim l [ ]
walk-leb (suc fuel) heap m (object r ∷ rest) count s b (k, n, node good t, h, q) c e =
    object-leb fuel heap m r count k n rest b good t h c e
      (λ count' pending u sum bound f. walk-leb fuel heap m pending count' u b sum bound f)
    ∙ ap (λ x. leb (x + count) m) (omega arith)

-- Arguments that are a tree without reserved keys are accepted exactly when the tree has at most
-- `maximum` entries.
pub within_input_element_limit_exact :
    (heap : Heap) (v : JsValue) (size maximum : ℕ)
    → Sized heap v size
    → (within_input_element_limit heap v maximum ≡ true) ↔ (size ≤ maximum)
within_input_element_limit_exact heap v size m h =
    let e : within_input_element_limit heap v m ≡ leb (size + 0 + 0) m =
      walk-leb (m + 2) heap m (v ∷ []) 0 (size + 0) _ (size, 0, h, refl, refl) (omega arith)
        (walk-within_input_element_limit heap v m) in
    ground arith
