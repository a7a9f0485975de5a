-- ===== src/Errors.antt =====
-- src/errors.ts: the failure codes, and the code that an arbitrary thrown value is reported as.
use secure_mcp.Shared.{String, ◌≡◌, refl, List, [], ◌∷◌, if◌then◌else◌, includes}

pub data FailureCode : Type 0 where
  denied invalid_input busy timeout cancelled shutting_down : FailureCode
  output_too_large not_found upstream_failed audit_unavailable internal : FailureCode

-- The text of a code, as the union type of the source spells it.
unfoldable pub text_of : FailureCode → String
text_of denied = "denied"
text_of invalid_input = "invalid_input"
text_of busy = "busy"
text_of timeout = "timeout"
text_of cancelled = "cancelled"
text_of shutting_down = "shutting_down"
text_of output_too_large = "output_too_large"
text_of not_found = "not_found"
text_of upstream_failed = "upstream_failed"
text_of audit_unavailable = "audit_unavailable"
text_of internal = "internal"

-- What code can throw: a RuntimeFailure, or any other value with the message that it carries.
pub data Thrown : Type 0 where
  runtime_failure : FailureCode → Thrown
  foreign : String → Thrown

abbrev pub known_codes : List String
known_codes =
    "denied" ∷ "invalid_input" ∷ "busy" ∷ "timeout" ∷ "cancelled" ∷ "shutting_down"
    ∷ "output_too_large" ∷ "not_found" ∷ "upstream_failed" ∷ "audit_unavailable" ∷ "internal" ∷ []

unfoldable pub failure_code : Thrown → FailureCode
unfolding text_of
failure_code (runtime_failure c) = if includes known_codes (text_of c) then c else internal
failure_code (foreign message) = internal

-- How an asynchronous operation ends: by a value or by a throw.
pub data Outcome (A : Type 0) : Type 0 where
  value : A → Outcome A
  raised : Thrown → Outcome A

pub failure_code-runtime_failure : (c : FailureCode) → failure_code (runtime_failure c) ≡ c
unfolding failure_code
failure_code-runtime_failure denied = refl
failure_code-runtime_failure _ = refl
