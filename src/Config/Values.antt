-- ===== src/Config/Values.antt =====
-- src/config.ts: values of JSON, and what `configSchema` is put together from. A number is a whole one
-- from 0 on or another.
use secure_mcp.Shared.{
  ℕ, String, Bool, true, false, ◌&&◌, ◌||◌, Option, none, some, List, [], ◌∷◌, str_eq, leb, ◌==◌,
  if◌then◌else◌, length, all, codes, includes, is_lower, is_digit, is_alnum,
}

mutual
  pub data Json : Type 0 where
    missing null other_number : Json
    boolean : Bool → Json
    number : ℕ → Json
    text : String → Json
    array : Items → Json
    object : Fields → Json

  pub data Items : Type 0 where
    end : Items
    item : Json → Items → Items

  pub data Fields : Type 0 where
    no_field : Fields
    field : String → Json → Fields → Fields

infixl 5 ◌>>=◌
abbrev pub ◌>>=◌ : {A B : Type 0} → Option A → (A → Option B) → Option B
none >>= f = none
some a >>= f = f a

abbrev pub ensure : {A : Type 0} → Bool → A → Option A
ensure true a = some a
ensure false a = none

abbrev pub get : String → Fields → Json
get key no_field = missing
get key (field k v rest) = let more = get key rest in if str_eq k key then v else more

-- `z.strictObject`: the fields of an object that has no other keys.
abbrev pub only_keys : List String → Fields → Bool
only_keys keys no_field = true
only_keys keys (field k v rest) = includes keys k && only_keys keys rest

unfoldable pub strict : List String → Json → Option Fields
strict keys (object fields) = ensure (only_keys keys fields) fields
strict keys _ = none

-- `z.number().int().min(low).max(high).default(standard)`
unfoldable pub integer : ℕ → ℕ → ℕ → Json → Option ℕ
integer low high standard missing = some standard
integer low high standard (number n) = ensure (leb low n && leb n high) n
integer low high standard _ = none

abbrev pub flag : Bool → Json → Option Bool
flag standard missing = some standard
flag standard (boolean b) = some b
flag standard _ = none

-- A text that passes a test, and lists of such texts with at most so many items.
unfoldable pub checked_text : (String → Bool) → Json → Option String
checked_text p (text s) = ensure (p s) s
checked_text p _ = none

unfoldable pub texts : (String → Bool) → Items → Option (List String)
unfolding checked_text
texts p end = some []
texts p (item v rest) =
    let more = texts p rest in checked_text p v >>= λ s. more >>= λ ss. some (s ∷ ss)

unfoldable pub text_list : (String → Bool) → ℕ → ℕ → List String → Json → Option (List String)
unfolding texts
text_list p low high standard missing = some standard
text_list p low high standard (array items) =
    texts p items >>= λ ss. ensure (leb low (length ss) && leb (length ss) high) ss
text_list p low high standard _ = none

-- `/^[a-z][a-z0-9_]{0,63}$/` and `/^[a-zA-Z0-9:._/-]{1,128}$/`
abbrev pub is_name_char : ℕ → Bool
is_name_char c = is_lower c || (is_digit c || c == b'_')

abbrev pub starts_lower : List ℕ → Bool
starts_lower [] = false
starts_lower (c ∷ cs) = is_lower c && (all is_name_char cs && leb (length cs) 63)

unfoldable pub is_name : String → Bool
is_name s = starts_lower (codes s)

abbrev pub is_scope_char : ℕ → Bool
is_scope_char c =
    is_alnum c || (c == b':' || (c == b'.' || (c == b'_' || (c == b'/' || c == b'-'))))

unfoldable pub is_scope : String → Bool
is_scope s = let n = length (codes s) in leb 1 n && (leb n 128 && all is_scope_char (codes s))

-- `.prefault({})`
abbrev pub or_empty : Json → Json
or_empty missing = object no_field
or_empty v = v

abbrev pub is_missing : Json → Bool
is_missing missing = true
is_missing _ = false

-- `.optional()`
abbrev pub optional : {A : Type 0} → (Json → Option A) → Json → Option (Option A)
optional read v = if is_missing v then some none else (read v >>= λ a. some (some a))

-- An enumeration of texts with a default.
abbrev pub one_of : List String → String → Json → Option String
one_of allowed standard missing = some standard
one_of allowed standard v = checked_text (includes allowed) v
