-- ===== src/Runtime.antt =====
-- src/runtime.ts: SecureRuntime. `invoke` is the whole path of one tool call; what the call meets on
-- its way, the clock, the SDK's parser, the abort signal, the audit and the handler, is a `World`.
pub mod Invoke
pub mod Answers
pub mod Registry
mod Tests
use secure_mcp.Shared.{
  ℕ, ◌+◌, String, Bool, true, false, Option, none, some, List, [], ◌∷◌, ◌++◌, str_eq, leb,
  if◌then◌else◌,
}
use secure_mcp.Errors.{
  FailureCode, denied, invalid_input, output_too_large, audit_unavailable, text_of, Thrown,
  runtime_failure, failure_code, Outcome, value, raised,
}
use secure_mcp.Policy.{Principal, ToolPolicy, PolicyOptions, may_invoke}
use secure_mcp.Input.{Heap, JsValue, within_input_element_limit}
use secure_mcp.Execution.{Controller, refused, admitted, run}

-- The limits of the configuration that a call meets.
pub record Limits : Type 0 where
  pub max_input_bytes : ℕ
  pub max_input_elements : ℕ
  pub max_output_bytes : ℕ

pub record CallToolResult : Type 0 where
  pub content : List String
  pub is_error : Bool

-- What a call does that others can see: an audit record that is handed to the dispatcher, and the
-- call of the tool's handler.
pub data Act : Type 0 where
  recorded : String → Act
  ran : Act

pub record World : Type 0 where
  pub now_ms : ℕ
  -- the arguments, and the length of `JSON.stringify(args)`, which may throw
  pub heap : Heap
  pub args : JsValue
  pub input_bytes : Outcome ℕ
  -- the execution controller and the caller's signal
  pub controller : Controller CallToolResult
  pub caller_aborted : Bool
  -- an abort that answers the caller before the operation ends
  pub interruption : Option FailureCode
  -- whether the bounded signal has aborted at each check, and what the check throws
  pub aborted_at : ℕ → Bool
  pub abort_reason : Thrown
  -- `safeParseAsync`: it throws, or says whether the arguments fit the schema
  pub parse : Outcome Bool
  -- whether the audit acknowledges a record of the given outcome
  pub accepts : String → Bool
  pub handler : Outcome CallToolResult
  pub json_bytes : CallToolResult → ℕ

-- Actions that may throw and that leave acts, oldest first.
abbrev pub Action : Type 0 → Type 0
Action A = List Act → Outcome A × List Act

infixl 5 ◌>>=◌ ◌>>◌
abbrev pub ◌>>=◌ : {A B : Type 0} → Action A → (A → Action B) → Action B
◌>>=◌ m f acts =
    let (o, acts') = m acts in elim o [ value a ↦ f a acts' | raised e ↦ (raised e, acts') ]

abbrev pub ◌>>◌ : {B : Type 0} → Action (Unit {0}) → Action B → Action B
m >> k = m >>= λ _. k

abbrev pub pure : {A : Type 0} → A → Action A
pure a acts = (value a, acts)

abbrev pub lift : {A : Type 0} → Outcome A → Action A
lift o acts = (o, acts)

-- `if (!condition) throw new RuntimeFailure(code)`
abbrev pub require : Bool → FailureCode → Action (Unit {0})
require condition code acts = (if condition then value tt else raised (runtime_failure code), acts)

-- `boundedSignal.throwIfAborted()`
abbrev pub check : World → ℕ → Action (Unit {0})
check w place acts = (if w.aborted_at place then raised w.abort_reason else value tt, acts)

-- `record(…)`: a write that the audit does not acknowledge throws audit_unavailable.
abbrev pub record_outcome : World → String → Action (Unit {0})
record_outcome w outcome acts = (
  if w.accepts outcome then value tt else raised (runtime_failure audit_unavailable),
  acts ++ recorded outcome ∷ [],
)

-- `tool.inputSchema.safeParseAsync(args)` in its `try`
abbrev pub parsed : World → Action Bool
parsed w acts = elim w.parse [
  | value success ↦ (value success, acts)
  | raised _ ↦ (raised (runtime_failure invalid_input), acts)
]

abbrev pub call_handler : World → Action CallToolResult
call_handler w acts = (w.handler, acts ++ ran ∷ [])

abbrev pub outcome_of : CallToolResult → String
outcome_of r = if r.is_error then "tool_error" else "success"

-- The operation that the execution controller runs, with the controller's own first check.
unfoldable pub operation : Limits → World → Action CallToolResult
operation limits w = do
  check w 0
  success ← parsed w
  check w 1
  require success invalid_input
  record_outcome w "allowed"
  check w 2
  result ← call_handler w
  check w 3
  require (leb (w.json_bytes result) limits.max_output_bytes) output_too_large
  record_outcome w (outcome_of result)
  pure result

-- The race of the operation with the abort. An interrupted operation goes on by itself: its acts
-- remain, and stand before those of the call that it no longer answers.
abbrev pub raced : World → Action CallToolResult → Action CallToolResult
raced w m acts =
    let (o, acts') = m acts in
    elim w.interruption [ none ↦ (o, acts') | some code ↦ (raised (runtime_failure code), acts') ]

-- `this.execution.run(operation, signal)`
abbrev pub run_bounded : World → Action CallToolResult → Action CallToolResult
run_bounded w m acts = elim (run w.caller_aborted w.controller) [
  | refused code ↦ (raised (runtime_failure code), acts)
  | admitted _ ↦ raced w m acts
]

-- `this.registry.get(name)`
unfoldable pub find : List ToolPolicy → String → Option ToolPolicy
find [] name = none
find (t ∷ ts) name = if str_eq t.name name then some t else find ts name

abbrev pub permitted : World → PolicyOptions → Principal → Option ToolPolicy → Bool
permitted w policy principal none = false
permitted w policy principal (some tool) = may_invoke w.now_ms policy principal tool

-- The body of the `try` in `invoke`.
unfoldable pub attempt :
    Limits → World → PolicyOptions → Principal → Option ToolPolicy → Action CallToolResult
unfolding operation
attempt limits w policy principal tool = do
  require (permitted w policy principal tool) denied
  require (within_input_element_limit w.heap w.args limits.max_input_elements) invalid_input
  bytes ← lift w.input_bytes
  require (leb bytes limits.max_input_bytes) invalid_input
  run_bounded w (operation limits w)

-- What the caller of `invoke` receives, the outcome that is counted, the acts, and whether the audit
-- has acknowledged the record of this outcome, which sets `request.toolOutcomeRecorded`.
pub record Reply : Type 0 where
  pub answer : CallToolResult
  pub outcome : String
  pub acts : List Act
  pub on_record : Bool

abbrev pub failure_result : FailureCode → CallToolResult
failure_result code = record { content = text_of code ∷ []; is_error = true }

abbrev pub is_audit_loss : FailureCode → Bool
is_audit_loss audit_unavailable = true
is_audit_loss _ = false

-- The `catch` of `invoke`.
unfoldable pub report : World → FailureCode → List Act → Reply
report w code acts =
    if is_audit_loss code
    then record {
      answer = failure_result code;
      outcome = text_of code;
      acts = acts;
      on_record = false;
    }
    else if w.accepts (text_of code)
    then record {
      answer = failure_result code;
      outcome = text_of code;
      acts = acts ++ recorded (text_of code) ∷ [];
      on_record = true;
    }
    else record {
      answer = failure_result audit_unavailable;
      outcome = text_of audit_unavailable;
      acts = acts ++ recorded (text_of code) ∷ [];
      on_record = false;
    }

unfoldable pub conclude : World → Outcome CallToolResult × List Act → Reply
unfolding report
conclude w (value r, acts) = record {
  answer = r;
  outcome = outcome_of r;
  acts = acts;
  on_record = true;
}
conclude w (raised e, acts) = report w (failure_code e) acts

unfoldable pub invoke :
    Limits → World → PolicyOptions → Principal → List ToolPolicy → String → Reply
unfolding attempt conclude find
invoke limits w policy principal registry name =
    conclude w (attempt limits w policy principal (find registry name) [])

-- `this.counts.set(outcome, (this.counts.get(outcome) ?? 0) + 1)`
unfoldable pub count : String → List (String × ℕ) → List (String × ℕ)
count outcome [] = (outcome, 1) ∷ []
count outcome ((o, n) ∷ rest) =
    if str_eq o outcome then (o, n + 1) ∷ rest else (o, n) ∷ count outcome rest

unfoldable pub count_of : String → List (String × ℕ) → ℕ
count_of outcome [] = 0
count_of outcome ((o, n) ∷ rest) = if str_eq o outcome then n else count_of outcome rest
