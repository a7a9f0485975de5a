-- ===== src/V1/Mcp/Requests.antt =====
-- legacy/v1/src/server/mcp-security.ts: `validateCommand`, `validateToolExecution` with
-- `sanitizeToolArgs`, `validateResourceAccess` and `validateRequestId`.
pub mod Bounded
pub mod Commands
pub mod Paths
use secure_mcp.Shared.{
  ℕ, zero, suc, ◌+◌, ◌-◌, ◌*◌, Bool, true, false, not, ◌&&◌, ◌||◌, Option, none, some, List, [],
  ◌∷◌, ◌++◌, ltb, leb, ◌==◌, if◌then◌else◌, length, all, any, take, drop, codes, is_digit, is_alnum,
}
use Prim.Native.Nat.{◌^◌}
use secure_mcp.Http.Target.{same, starts_with}
use secure_mcp.V1.Mcp.Values.{
  Value, Items, Entries, Proto, null, boolean, number, text, array, object, end, item, none_left,
  entry, plain, bare, finite, has_key, is_space,
}
use secure_mcp.V1.Mcp.Schemas.{property, is_name, is_tool_char, allowed_commands, schema_of}

pub data Verdict (A : Type 0) : Type 0 where
  accepted : A → Verdict A
  refused : List ℕ → Verdict A

-- Whether an object inherits the property.
abbrev pub inherits : Proto → List ℕ → Bool
inherits bare prop = false
inherits plain prop = same prop (codes "__proto__") || same prop (codes "constructor")

-- `prop in args`, for the three properties; an array inherits as a plain object does.
abbrev pub is_in : List ℕ → Value → Bool
is_in prop (object proto es) = has_key es prop || inherits proto prop
is_in prop (array items) = inherits plain prop
is_in prop _ = false

abbrev pub dangerous_props : List (List ℕ)
dangerous_props = codes "__proto__" ∷ codes "constructor" ∷ codes "prototype" ∷ []

-- `validateNested`, which is called for objects and arrays; an array's keys are short numerals.
unfoldable mutual
  pub validate_nested : ℕ → Value → Bool
  validate_nested depth (array items) = leb depth 10 && nested_items depth items
  validate_nested depth (object proto es) = leb depth 10 && nested_entries depth es
  validate_nested depth _ = true

  pub nested_items : ℕ → Items → Bool
  nested_items depth end = true
  nested_items depth (item v vs) = validate_nested (suc depth) v && nested_items depth vs

  pub nested_entries : ℕ → Entries → Bool
  nested_entries depth none_left = true
  nested_entries depth (entry key v es) =
      leb (length key) 100 && (validate_nested (suc depth) v && nested_entries depth es)

-- `args && typeof args === 'object'`
abbrev pub is_objective : Value → Bool
is_objective (array items) = true
is_objective (object proto es) = true
is_objective _ = false

unfoldable pub validate_command : List ℕ → Value → Verdict Unit
unfolding validate_nested
validate_command command args = elim (schema_of allowed_commands command) [
  | none ↦ refused (codes "Command not allowed: " ++ command)
  | some schema ↦
      if not (is_objective args)
      then accepted tt
      else if any (λ prop. is_in prop args) dangerous_props
      then refused (codes "Dangerous property detected")
      else if not (validate_nested 0 args)
      then refused (codes "Invalid argument structure")
      else accepted tt
]

abbrev pub allowed_tool_operations : List (List ℕ)
allowed_tool_operations =
    codes "echo"
    ∷ codes "calculate"
    ∷ codes "query"
    ∷ codes "format"
    ∷ codes "validate"
    ∷ codes "transform"
    ∷ []

-- `/^[a-zA-Z0-9_]+$/.test(key) && key.length <= 50`
abbrev pub is_tool_key : List ℕ → Bool
is_tool_key key = is_name 50 (λ c. is_alnum c || c == b'_') key

abbrev pub first_items : ℕ → Items → Items
first_items zero vs = end
first_items (suc n) end = end
first_items (suc n) (item v vs) = item v (first_items n vs)

-- What `sanitizeToolArgs` keeps of a value.
abbrev pub sanitize_arg : (List ℕ → List ℕ) → Value → Option Value
sanitize_arg purify (text s) = some (text (take 1000 (purify s)))
sanitize_arg purify (number n) = some (number n)
sanitize_arg purify (boolean b) = some (boolean b)
sanitize_arg purify (array items) = some (array (first_items 100 items))
sanitize_arg purify _ = none

-- The key `__proto__` passes the test, but the assignment makes no entry.
unfoldable pub sanitize_tool_entries : (List ℕ → List ℕ) → Entries → Entries
sanitize_tool_entries purify none_left = none_left
sanitize_tool_entries purify (entry key v es) =
    let rest = sanitize_tool_entries purify es in
    if is_tool_key key && not (same key (codes "__proto__"))
    then (elim (sanitize_arg purify v) [ none ↦ rest | some w ↦ entry key w rest ])
    else rest

-- `Object.entries(array)`; `numeral` writes an index in decimal digits.
abbrev pub indexed : (ℕ → List ℕ) → ℕ → Items → Entries
indexed numeral i end = none_left
indexed numeral i (item v vs) = entry (numeral i) v (indexed numeral (i + 1) vs)

unfoldable pub sanitize_tool_args : (ℕ → List ℕ) → (List ℕ → List ℕ) → Value → Entries
unfolding sanitize_tool_entries
sanitize_tool_args numeral purify (object proto es) = sanitize_tool_entries purify es
sanitize_tool_args numeral purify (array items) =
    sanitize_tool_entries purify (indexed numeral 0 items)
sanitize_tool_args numeral purify _ = none_left

-- `/^[0-9+\-*/().\s]+$/`
abbrev pub is_expression : List ℕ → Bool
is_expression s =
    leb 1 (length s)
    && all
        (λ c.
          is_digit c
          || (c == b'+'
              || (c == b'-'
                  || (c == b'*'
                      || (c == b'/' || (c == b'(' || (c == b')' || (c == b'.' || is_space c))))))))
        s

abbrev pub count_items : Items → ℕ
count_items end = 0
count_items (item v vs) = suc (count_items vs)

-- `value && value.length > 1000`; only texts and arrays have a length here.
abbrev pub is_too_long : Value → Bool
is_too_long (text s) = ltb 1000 (length s)
is_too_long (array items) = ltb 1000 (count_items items)
is_too_long _ = false

-- `typeof value === 'string'` and the test fails.
abbrev pub is_bad_expression : Value → Bool
is_bad_expression (text s) = not (is_expression s)
is_bad_expression _ = false

unfoldable pub validate_tool_execution :
    (ℕ → List ℕ) → (List ℕ → List ℕ) → List ℕ → Value → Verdict Entries
unfolding sanitize_tool_args
validate_tool_execution numeral purify tool args =
    let sanitized = sanitize_tool_args numeral purify args in
    if not (any (λ t. same t tool) allowed_tool_operations)
    then refused (codes "Tool not allowed: " ++ tool)
    else if same tool (codes "calculate")
        && is_bad_expression (property sanitized (codes "expression"))
    then refused (codes "Invalid calculation expression")
    else if same tool (codes "query") && is_too_long (property sanitized (codes "query"))
    then refused (codes "Query too long")
    else accepted sanitized

-- `text.includes(part)`
abbrev pub has_part : List ℕ → List ℕ → Bool
has_part part [] = starts_with part []
has_part part (c ∷ cs) = starts_with part (c ∷ cs) || has_part part cs

-- `[…]*suffix$`: the characters of the class, then the suffix, which does not begin with one.
abbrev pub body_then : (ℕ → Bool) → List ℕ → List ℕ → Bool
body_then p suffix [] = same [] suffix
body_then p suffix (c ∷ cs) = if p c then body_then p suffix cs else same (c ∷ cs) suffix

abbrev pub is_path_char : ℕ → Bool
is_path_char c = is_tool_char c || c == b'/'

-- `[…]+suffix$`
abbrev pub one_then : (ℕ → Bool) → List ℕ → List ℕ → Bool
one_then p suffix [] = false
one_then p suffix (c ∷ cs) = p c && body_then p suffix cs

-- `/^prefix[…]+suffix$/`
abbrev pub fits : List ℕ → (ℕ → Bool) → List ℕ → List ℕ → Bool
fits prefix p suffix s = starts_with prefix s && one_then p suffix (drop (length prefix) s)

-- RESOURCE_ACCESS_PATTERNS
abbrev pub is_resource : List ℕ → Bool
is_resource uri =
    same uri (codes "server-info")
    || (fits (codes "config/") is_tool_char [] uri
        || (fits (codes "data/") is_path_char (codes ".json") uri
            || fits (codes "templates/") is_path_char (codes ".txt") uri))

unfoldable pub validate_resource_access : List ℕ → Verdict Unit
validate_resource_access uri =
    if ltb 500 (length uri)
    then refused (codes "URI too long")
    else if has_part (codes "../") uri || has_part (codes "..\\") uri
    then refused (codes "Path traversal detected")
    else if not (is_resource uri)
    then refused (codes "Resource access denied: " ++ uri)
    else accepted tt

-- `Number.MAX_SAFE_INTEGER`, in units of `2 ^ -1074`.
unfoldable pub below_max_safe : ℕ → ℕ → Bool
below_max_safe mantissa exponent = ltb (mantissa * 2 ^ exponent) ((2 ^ 53 - 1) * 2 ^ 1074)

unfoldable pub validate_request_id : Value → Bool
unfolding below_max_safe
validate_request_id (text s) = leb 1 (length s) && (all is_tool_char s && leb (length s) 100)
validate_request_id (number (finite negative m e)) = not negative && (ltb 0 m && below_max_safe m e)
validate_request_id null = true
validate_request_id _ = false
