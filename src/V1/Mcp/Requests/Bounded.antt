-- ===== src/V1/Mcp/Requests/Bounded.antt =====
-- The arguments that a tool is given.
use secure_mcp.Shared.{
  ℕ, zero, suc, ◌≤◌, ◌≡◌, refl, ◌⊎◌, inl, inr, Bool, true, false, not, ◌&&◌, Option, none, some,
  List, [], ◌∷◌, ◌++◌, arith, if◌then◌else◌, length, any, take, codes, subst, some-injective,
}
use secure_mcp.Http.Target.{same}
use secure_mcp.V1.Mcp.Values.{
  Value, Items, Entries, undefined, null, boolean, number, text, array, object, end, item,
  none_left, entry,
}
use secure_mcp.V1.Mcp.Schemas.{property}
use secure_mcp.V1.Mcp.Requests.{
  Verdict, accepted, refused, is_tool_key, first_items, sanitize_arg, sanitize_tool_entries,
  indexed, sanitize_tool_args, is_bad_expression, is_too_long, count_items, validate_tool_execution,
  allowed_tool_operations,
}

-- A text of at most 1000 code units, a list of at most 100 items, a number or a Boolean.
abbrev pub IsSmall : Value → Type 0
IsSmall (text s) = length s ≤ 1000
IsSmall (array items) = count_items items ≤ 100
IsSmall (number n) = Unit
IsSmall (boolean b) = Unit
IsSmall _ = ⊥

-- Each key has 1 to 50 letters, digits and underscores, and each value is small.
unfoldable pub IsBounded : Entries → Type 0
IsBounded none_left = Unit
IsBounded (entry key v es) = (is_tool_key key ≡ true) × (IsSmall v × IsBounded es)

length-take-le : (n : ℕ) (s : List ℕ) → length (take n s) ≤ n
length-take-le zero s = omega arith
length-take-le (suc n) [] = omega arith
length-take-le (suc n) (x ∷ xs) = omega (arith, length-take-le n xs)

count_items-first_items-le : (n : ℕ) (vs : Items) → count_items (first_items n vs) ≤ n
count_items-first_items-le zero vs = omega arith
count_items-first_items-le (suc n) end = omega arith
count_items-first_items-le (suc n) (item v vs) = omega (arith, count_items-first_items-le n vs)

sanitize_arg-IsSmall :
    (purify : List ℕ → List ℕ) (v w : Value) → sanitize_arg purify v ≡ some w → IsSmall w
sanitize_arg-IsSmall purify (text s) w h =
    subst IsSmall (some-injective _ w h) (length-take-le 1000 (purify s))
sanitize_arg-IsSmall purify (array items) w h =
    subst IsSmall (some-injective _ w h) (count_items-first_items-le 100 items)
sanitize_arg-IsSmall purify (number n) w h = subst IsSmall (some-injective _ w h) tt
sanitize_arg-IsSmall purify (boolean b) w h = subst IsSmall (some-injective _ w h) tt
sanitize_arg-IsSmall purify undefined w h = absurd (cc)
sanitize_arg-IsSmall purify null w h = absurd (cc)
sanitize_arg-IsSmall purify (object proto es) w h = absurd (cc)

sanitize_tool_entries-IsBounded :
    (purify : List ℕ → List ℕ) (es : Entries) → IsBounded (sanitize_tool_entries purify es)
unfolding IsBounded sanitize_tool_entries
sanitize_tool_entries-IsBounded purify none_left = tt
sanitize_tool_entries-IsBounded purify (entry key v es) =
    kept (is_tool_key key) (not (same key (codes "__proto__"))) (sanitize_arg purify v) refl
      (sanitize_arg-IsSmall purify v) (sanitize_tool_entries-IsBounded purify es)
  where
    kept :
        (word own : Bool) (o : Option Value)
        → is_tool_key key ≡ word
        → ((w : Value) → o ≡ some w → IsSmall w)
        → IsBounded (sanitize_tool_entries purify es)
        → IsBounded (
            if word && own
            then (elim o [
              | none ↦ sanitize_tool_entries purify es
              | some w ↦ entry key w (sanitize_tool_entries purify es)
            ])
            else sanitize_tool_entries purify es)
    kept false own o e small rest = rest
    kept true false o e small rest = rest
    kept true true none e small rest = rest
    kept true true (some w) e small rest = (e, (small w refl, rest))

sanitize_tool_args-IsBounded :
    (numeral : ℕ → List ℕ) (purify : List ℕ → List ℕ) (args : Value)
    → IsBounded (sanitize_tool_args numeral purify args)
unfolding IsBounded sanitize_tool_args
sanitize_tool_args-IsBounded numeral purify (object proto es) =
    sanitize_tool_entries-IsBounded purify es
sanitize_tool_args-IsBounded numeral purify (array items) =
    sanitize_tool_entries-IsBounded purify (indexed numeral 0 items)
sanitize_tool_args-IsBounded numeral purify undefined = tt
sanitize_tool_args-IsBounded numeral purify null = tt
sanitize_tool_args-IsBounded numeral purify (boolean b) = tt
sanitize_tool_args-IsBounded numeral purify (number n) = tt
sanitize_tool_args-IsBounded numeral purify (text s) = tt

-- No bounded argument is too long, so the test of the query's length never fails.
property-short : (es : Entries) (k : List ℕ) → IsBounded es → is_too_long (property es k) ≡ false
unfolding IsBounded
property-short none_left k h = refl
property-short (entry key v es) k (word, (small, h)) =
    chosen (same key k) v small (property-short es k h)
  where
    chosen :
        (here : Bool) (v : Value)
        → IsSmall v
        → is_too_long (property es k) ≡ false
        → is_too_long (if here then v else property es k) ≡ false
    chosen false v small rest = rest
    chosen true undefined small rest = refl
    chosen true null small rest = refl
    chosen true (boolean b) small rest = refl
    chosen true (number n) small rest = refl
    chosen true (text s) small rest = ground (arith, small)
    chosen true (array items) small rest = ground (arith, small)
    chosen true (object proto es) small rest = refl

-- A tool that is not on the list is refused, and so is `calculate` with a text as its expression that
-- has anything but digits, operators, parentheses, points and spaces. Everything else is accepted, and
-- then each argument is bounded: a key of 1 to 50 letters, digits and underscores with a number, a
-- Boolean, a text of at most 1000 code units or a list of at most 100 items. So no query is refused
-- for its length.
pub validate_tool_execution-IsBounded :
    (numeral : ℕ → List ℕ) (purify : List ℕ → List ℕ) (tool : List ℕ) (args : Value)
    → let sanitized = sanitize_tool_args numeral purify args in
      let listed = any (λ t. same t tool) allowed_tool_operations in
      let bad =
        same tool (codes "calculate")
        && is_bad_expression (property sanitized (codes "expression")) in
      let result = validate_tool_execution numeral purify tool args in
      ((listed ≡ false) × (result ≡ refused (codes "Tool not allowed: " ++ tool)))
      ⊎ ((listed ≡ true)
          × ((bad ≡ true) × (result ≡ refused (codes "Invalid calculation expression"))))
      ⊎ ((listed ≡ true) × ((bad ≡ false) × ((result ≡ accepted sanitized) × IsBounded sanitized)))
unfolding validate_tool_execution
validate_tool_execution-IsBounded numeral purify tool args =
    let sanitized = sanitize_tool_args numeral purify args in
    let bounded = sanitize_tool_args-IsBounded numeral purify args in
    let short = property-short sanitized (codes "query") bounded in
    decided (any (λ t. same t tool) allowed_tool_operations)
      (same tool (codes "calculate") && is_bad_expression (property sanitized (codes "expression")))
      (same tool (codes "query")) (is_too_long (property sanitized (codes "query"))) sanitized
      bounded short
  where
    decided :
        (listed bad query long : Bool) (sanitized : Entries)
        → IsBounded sanitized
        → long ≡ false
        → let result : Verdict Entries =
            if not listed
            then refused (codes "Tool not allowed: " ++ tool)
            else if bad
            then refused (codes "Invalid calculation expression")
            else if query && long
            then refused (codes "Query too long")
            else accepted sanitized in
          ((listed ≡ false) × (result ≡ refused (codes "Tool not allowed: " ++ tool)))
          ⊎ ((listed ≡ true)
              × ((bad ≡ true) × (result ≡ refused (codes "Invalid calculation expression"))))
          ⊎ ((listed ≡ true)
              × ((bad ≡ false) × ((result ≡ accepted sanitized) × IsBounded sanitized)))
    decided false bad query long sanitized h s = inl (refl, refl)
    decided true true query long sanitized h s = inr (inl (refl, (refl, refl)))
    decided true false false long sanitized h s = inr (inr (refl, (refl, (refl, h))))
    decided true false true false sanitized h s = inr (inr (refl, (refl, (refl, h))))
    decided true false true true sanitized h s = absurd (cc)
