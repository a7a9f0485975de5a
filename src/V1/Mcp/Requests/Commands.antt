-- ===== src/V1/Mcp/Requests/Commands.antt =====
-- The arguments of a command.
use secure_mcp.Shared.{
  ℕ, suc, ◌+◌, ◌≤◌, max, ◌≡◌, refl, ◌⊎◌, inl, inr, Bool, true, false, not, ◌&&◌, some, List, arith,
  leb, if◌then◌else◌, Option-cases, length, any, codes,
}
use secure_mcp.V1.Mcp.Values.{
  Value, Items, Entries, undefined, null, boolean, number, text, array, object, end, item,
  none_left, entry, plain, bare,
}
use secure_mcp.V1.Mcp.Schemas.{allowed_commands, schema_of, Schema}
use secure_mcp.V1.Mcp.Requests.{
  nested_entries, nested_items, accepted, refused, validate_nested, is_objective, validate_command,
  is_in, dangerous_props,
}

-- How deep lists and objects stand in each other.
unfoldable mutual
  pub depth_of : Value → ℕ
  depth_of undefined = 0
  depth_of null = 0
  depth_of (boolean b) = 0
  depth_of (number n) = 0
  depth_of (text s) = 0
  depth_of (array items) = suc (depth_of_items items)
  depth_of (object proto es) = suc (depth_of_entries es)

  pub depth_of_items : Items → ℕ
  depth_of_items end = 0
  depth_of_items (item v vs) = max (depth_of v) (depth_of_items vs)

  pub depth_of_entries : Entries → ℕ
  depth_of_entries none_left = 0
  depth_of_entries (entry key v es) = max (depth_of v) (depth_of_entries es)

-- The parts of the tests.
leb_and : (d n : ℕ) (b : Bool) → (leb d n && b) ≡ true → (d ≤ n) × (b ≡ true)
leb_and d n b h = ground arith

both : (a b : Bool) → (a && b) ≡ true → (a ≡ true) × (b ≡ true)
both a b h = ground arith

mutual
  unfolding depth_of validate_nested

  nested_le : (d : ℕ) (v : Value) → d ≤ 11 → validate_nested d v ≡ true → d + depth_of v ≤ 11
  nested_le d undefined k h = omega (arith, k)
  nested_le d null k h = omega (arith, k)
  nested_le d (boolean b) k h = omega (arith, k)
  nested_le d (number n) k h = omega (arith, k)
  nested_le d (text s) k h = omega (arith, k)
  nested_le d (array items) k h =
      let (small, rest) = leb_and d 10 (nested_items d items) h in
      omega (arith, items_le d items small rest)
  nested_le d (object proto es) k h =
      let (small, rest) = leb_and d 10 (nested_entries d es) h in
      omega (arith, entries_le d es small rest)

  items_le :
      (d : ℕ) (vs : Items) → d ≤ 10 → nested_items d vs ≡ true → suc d + depth_of_items vs ≤ 11
  items_le d end k h = omega (arith, k)
  items_le d (item v vs) k h =
      let (here, rest) = both (validate_nested (suc d) v) (nested_items d vs) h in
      omega (arith, nested_le (suc d) v (omega (arith, k)) here, items_le d vs k rest)

  entries_le :
      (d : ℕ) (es : Entries)
      → d ≤ 10
      → nested_entries d es ≡ true
      → suc d + depth_of_entries es ≤ 11
  entries_le d none_left k h = omega (arith, k)
  entries_le d (entry key v es) k h =
      let (short, tests) =
        leb_and (length key) 100 (validate_nested (suc d) v && nested_entries d es) h in
      let (here, rest) = both (validate_nested (suc d) v) (nested_entries d es) tests in
      omega (arith, nested_le (suc d) v (omega (arith, k)) here, entries_le d es k rest)

-- A value with a prototype has the property `constructor`.
has_constructor :
    (args : Value)
    → is_objective args ≡ true
    → any (λ prop. is_in prop args) dangerous_props ≡ false
    → (es : Entries) × (args ≡ object bare es)
has_constructor (array items) h k = absurd (cc)
has_constructor (object plain es) h k = absurd (ground (arith, k))
has_constructor (object bare es) h k = (es, refl)
has_constructor undefined h k = absurd (cc)
has_constructor null h k = absurd (cc)
has_constructor (boolean b) h k = absurd (cc)
has_constructor (number n) h k = absurd (cc)
has_constructor (text s) h k = absurd (cc)

-- A command is accepted only if it is one of the six, and its arguments are no object and no list, or an
-- object without a prototype in which lists and objects stand at most eleven deep. Every other list or
-- object is refused, an empty one too: it inherits `constructor` and `__proto__`.
pub validate_command-accepted :
    (command : List ℕ) (args : Value)
    → validate_command command args ≡ accepted tt
    → ((schema : Schema) × (schema_of allowed_commands command ≡ some schema))
      × ((is_objective args ≡ false)
          ⊎ ((es : Entries) × ((args ≡ object bare es) × (depth_of args ≤ 11))))
unfolding validate_command
validate_command-accepted command args h =
    elim (Option-cases (schema_of allowed_commands command)) [
      | inl e ↦ absurd (ground (arith, h, e))
      | inr (schema, e) ↦ (
        (schema, e),
        judged (is_objective args) _ (validate_nested 0 args) refl refl refl (ground (arith, h, e)),
      )
    ]
  where
    judged :
        (objective dangerous nested : Bool)
        → is_objective args ≡ objective
        → any (λ prop. is_in prop args) dangerous_props ≡ dangerous
        → validate_nested 0 args ≡ nested
        → (if not objective
            then accepted tt
            else if dangerous
            then refused (codes "Dangerous property detected")
            else if not nested
            then refused (codes "Invalid argument structure")
            else accepted tt)
          ≡ accepted tt
        → (objective ≡ false) ⊎ ((es : Entries) × ((args ≡ object bare es) × (depth_of args ≤ 11)))
    judged false dangerous nested p q r h = inl refl
    judged true true nested p q r h = absurd (cc)
    judged true false false p q r h = absurd (cc)
    judged true false true p q r h =
        let (es, e) = has_constructor args p q in
        inr (es, (e, omega (arith, nested_le 0 args (omega arith) r)))
