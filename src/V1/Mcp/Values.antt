-- ===== src/V1/Mcp/Values.antt =====
-- legacy/v1/src/server/mcp-security.ts: the values that the validator walks, and what it makes of them.
-- A value is one of JSON, or `undefined`; a text is its UTF-16 code units. An object's own keys are
-- distinct, so an assignment to a new object adds an entry; one to `__proto__` adds none, and the
-- prototype that it sets is left out, since nothing is read through it.
pub mod Clean
pub mod Masked
use secure_mcp.Shared.{
  ℕ, zero, suc, ◌-◌, Bool, true, false, not, ◌&&◌, ◌||◌, Option, none, some, List, [], ◌∷◌, ◌++◌,
  map, leb, ◌==◌, if◌then◌else◌, length, any, drop, codes,
}
use secure_mcp.Http.Target.{same, starts_with, lowered}

-- A double is not a number, infinite, or `mantissa * 2 ^ exponent` units of `2 ^ -1074`.
pub data Number : Type 0 where
  nan : Number
  infinite : Bool → Number
  finite : Bool → ℕ → ℕ → Number

-- `bare` is an object without a prototype, `plain` one that inherits from `Object.prototype`.
pub data Proto : Type 0 where
  plain bare : Proto

mutual
  pub data Value : Type 0 where
    undefined null : Value
    boolean : Bool → Value
    number : Number → Value
    text : List ℕ → Value
    array : Items → Value
    object : Proto → Entries → Value

  pub data Items : Type 0 where
    end : Items
    item : Value → Items → Items

  pub data Entries : Type 0 where
    none_left : Entries
    entry : List ℕ → Value → Entries → Entries

abbrev pub has_key : Entries → List ℕ → Bool
has_key none_left k = false
has_key (entry key v es) k = same key k || has_key es k

-- `['__proto__', 'constructor', 'prototype'].includes(key)`
abbrev pub is_dangerous : List ℕ → Bool
is_dangerous key =
    same key (codes "__proto__") || (same key (codes "constructor") || same key (codes "prototype"))

-- `sanitizeData`; `purify` is `DOMPurify.sanitize` without tags and attributes.
unfoldable mutual
  pub sanitize_data : (List ℕ → List ℕ) → Value → Value
  sanitize_data purify undefined = undefined
  sanitize_data purify null = null
  sanitize_data purify (boolean b) = boolean b
  sanitize_data purify (number n) = number n
  sanitize_data purify (text s) = text (purify s)
  sanitize_data purify (array items) = array (sanitize_items purify items)
  sanitize_data purify (object proto es) = object plain (sanitize_entries purify es)

  pub sanitize_items : (List ℕ → List ℕ) → Items → Items
  sanitize_items purify end = end
  sanitize_items purify (item v vs) = item (sanitize_data purify v) (sanitize_items purify vs)

  pub sanitize_entries : (List ℕ → List ℕ) → Entries → Entries
  sanitize_entries purify none_left = none_left
  sanitize_entries purify (entry key v es) = elim (is_dangerous key) [
    | true ↦ sanitize_entries purify es
    | false ↦ entry key (sanitize_data purify v) (sanitize_entries purify es)
  ]

-- `\s`
abbrev pub is_space : ℕ → Bool
is_space c =
    (leb 9 c && leb c 13)
    || (c == 0x20
        || (c == 0xa0
            || (c == 0x1680
                || ((leb 0x2000 c && leb c 0x200a)
                    || (c == 0x2028
                        || (c == 0x2029
                            || (c == 0x202f || (c == 0x205f || (c == 0x3000 || c == 0xfeff)))))))))

-- `/word/i.test(text)`
abbrev pub contains : List ℕ → List ℕ → Bool
contains word [] = starts_with word []
contains word (c ∷ cs) = starts_with word (map lowered (c ∷ cs)) || contains word cs

-- `/password|token|secret|key|auth/i.test(key)`
abbrev pub is_sensitive : List ℕ → Bool
is_sensitive key =
    any (λ w. contains w key)
      (codes "password" ∷ codes "token" ∷ codes "secret" ∷ codes "key" ∷ codes "auth" ∷ [])

abbrev pub is_quote : ℕ → Bool
is_quote c = c == b'\'' || c == b'"'

abbrev pub skip_spaces : List ℕ → List ℕ
skip_spaces [] = []
skip_spaces (c ∷ cs) = if is_space c then skip_spaces cs else c ∷ cs

-- `[^'"]*['"]`, and what is behind it.
abbrev pub after_value : List ℕ → Option (List ℕ)
after_value [] = none
after_value (c ∷ cs) = if is_quote c then some cs else after_value cs

-- `['"][^'"]+['"]`
abbrev pub after_quoted : List ℕ → Option (List ℕ)
after_quoted (q ∷ c ∷ cs) = if is_quote q && not (is_quote c) then after_value cs else none
after_quoted _ = none

-- `word[\s]*=[\s]*['"][^'"]+['"]` at the start of a text, and what is behind it.
unfoldable pub after_assignment : List ℕ → List ℕ → Option (List ℕ)
after_assignment word s =
    if starts_with word (map lowered s)
    then (elim (skip_spaces (drop (length word) s)) [
      | [] ↦ none
      | c ∷ cs ↦ if c == b'=' then after_quoted (skip_spaces cs) else none
    ])
    else none

unfoldable pub first_match : List (List ℕ) → List ℕ → Option (List ℕ)
unfolding after_assignment
first_match [] s = none
first_match (w ∷ ws) s = elim (after_assignment w s) [
  | some rest ↦ some rest
  | none ↦ first_match ws s
]

-- `text.replace(/…/gi, mask)`; the number is how many units of the last match are still to be passed.
unfoldable pub replace_all : List (List ℕ) → List ℕ → ℕ → List ℕ → List ℕ
unfolding first_match
replace_all words mask n [] = []
replace_all words mask (suc n) (c ∷ cs) = replace_all words mask n cs
replace_all words mask zero (c ∷ cs) = elim (first_match words (c ∷ cs)) [
  | none ↦ c ∷ replace_all words mask zero cs
  | some rest ↦ mask ++ replace_all words mask (length cs - length rest) cs
]

unfoldable pub mask_text : List ℕ → List ℕ
unfolding replace_all
mask_text s =
    let passwords = replace_all (codes "password" ∷ []) (codes "password=***") 0 s in
    let tokens = replace_all (codes "token" ∷ []) (codes "token=***") 0 passwords in
    let api_keys =
      replace_all (codes "api_key" ∷ codes "api-key" ∷ codes "apikey" ∷ []) (codes "api_key=***") 0
        tokens in
    replace_all (codes "secret" ∷ []) (codes "secret=***") 0 api_keys

-- `sanitizeOutput`
unfoldable mutual
  unfolding mask_text

  pub sanitize_output : Value → Value
  sanitize_output undefined = undefined
  sanitize_output null = null
  sanitize_output (boolean b) = boolean b
  sanitize_output (number n) = number n
  sanitize_output (text s) = text (mask_text s)
  sanitize_output (array items) = array (output_items items)
  sanitize_output (object proto es) = object plain (output_entries es)

  pub output_items : Items → Items
  output_items end = end
  output_items (item v vs) = item (sanitize_output v) (output_items vs)

  pub output_entries : Entries → Entries
  output_entries none_left = none_left
  output_entries (entry key v es) = elim (same key (codes "__proto__")) [
    | true ↦ output_entries es
    | false ↦ elim (is_sensitive key) [
      | true ↦ entry key (text (codes "***")) (output_entries es)
      | false ↦ entry key (sanitize_output v) (output_entries es)
    ]
  ]
