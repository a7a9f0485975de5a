-- ===== src/Config.antt =====
-- src/config.ts: the rules of `superRefine` and `parseConfig`. The schema of zod below these rules is a
-- parameter, as are the URL parser and `resolve`.
pub mod Accepted
pub mod Values
pub mod Schema
mod Tests
use secure_mcp.Shared.{
  ℕ, zero, suc, ◌+◌, ◌-◌, ◌*◌, ◌/◌, ◌%◌, ◌≤◌, ◌<◌, min, max, String, ◌≡◌, refl, sym, ap, ◌∙◌, ◌≢◌,
  ◌↔◌, ◌⊎◌, inl, inr, Bool, true, false, not, ◌&&◌, ◌||◌, Option, none, some, List, [], ◌∷◌, ◌++◌,
  map, arith, str_eq, eq_iff, ltb, leb, ◌==◌, if◌then◌else◌, ltb→lt, lt→ltb, leb→le, le→leb, ==_iff,
  Bool-cases, Option-cases, Bool-eq_of_iff, and_intro, and_left, and_right, length, all, any, keep,
  length-append, length-keep-le, take, drop, get_elem?, All, All-append, all-All, All-all, All-mono,
  In, In-append, In-append_right, codes, bit_and_31, bit_or_byte, includes, includes_iff, is_empty,
  units, is_lower, is_upper, is_digit, is_alnum, modify_at, tally, tally-append, tally-modify_at-le,
  All-modify_at, All-get_elem?, take-add, take_all, take-append_drop, length-drop, take-append,
  take-nil, drop-nil, drop-add, append-nil, append_assoc, ap₂, subst, some-injective,
}

pub data Transport : Type 0 where
  stdio http : Transport

-- The fields that the rules read; `E` stands for the others.
pub record RuntimeConfig (E : Type 0) : Type 0 where
  pub transport : Transport
  pub workspace : String
  pub max_pending : ℕ
  pub max_concurrent : ℕ
  -- `http`, by its `resource`
  pub http_resource : Option String
  pub others : E

pub data Issue : Type 0 where
  pending_too_few http_missing resource_path : Issue

abbrev pub is_http : Transport → Bool
is_http stdio = false
is_http http = true

abbrev pub is_none : Option String → Bool
is_none none = true
is_none (some _) = false

-- `pathname` gives `new URL(text).pathname`, or `none` where `URL.canParse` says no.
abbrev pub has_wrong_path : (String → Option String) → Option String → Bool
has_wrong_path pathname none = false
has_wrong_path pathname (some resource) = elim (pathname resource) [
  | none ↦ false
  | some path ↦ not (str_eq path "/mcp")
]

abbrev pub issue_if : Bool → Issue → List Issue
issue_if true issue = issue ∷ []
issue_if false issue = []

module _ {E : Type 0} where
  -- The issues in the order in which `superRefine` adds them.
  unfoldable pub issues : (String → Option String) → RuntimeConfig E → List Issue
  issues pathname c =
      issue_if (is_http c.transport && ltb c.max_pending 3) pending_too_few
      ++ issue_if (is_http c.transport && is_none c.http_resource) http_missing
      ++ issue_if (has_wrong_path pathname c.http_resource) resource_path

  abbrev pub accepted : (String → String) → RuntimeConfig E → List Issue → Option (RuntimeConfig E)
  accepted resolve c [] = some (record c { workspace = resolve c.workspace })
  accepted resolve c (_ ∷ _) = none

  -- `none` is the throw of `configSchema.parse`.
  unfoldable pub parse_config :
      {V : Type 0}
      → (V → Option (RuntimeConfig E))
      → (String → Option String)
      → (String → String)
      → V
      → Option (RuntimeConfig E)
  unfolding issues
  parse_config schema pathname resolve v = elim (schema v) [
    | none ↦ none
    | some c ↦ accepted resolve c (issues pathname c)
  ]
