-- ===== src/Audit/Wire.antt =====
-- src/audit.ts: AuditedMcpServer. Outgoing messages are observed before they are sent, and incoming
-- tool calls with a reserved key are answered before the SDK parses them.
pub mod Gate
use secure_mcp.Shared.{
  ℕ, String, Bool, true, false, not, ◌&&◌, Option, none, some, List, [], ◌∷◌, str_eq, ◌==◌,
  if◌then◌else◌, all,
}
use secure_mcp.Errors.{Thrown, runtime_failure, audit_unavailable}
use secure_mcp.Input.{JsValue, Heap, has_reserved_key}

-- A JSON-RPC error code, below zero or not.
pub data RpcCode : Type 0 where
  below_zero : ℕ → RpcCode
  from_zero : ℕ → RpcCode

-- A JSON-RPC message with its `id`, if it has that key.
pub data Message : Type 0 where
  error : Option ℕ → RpcCode → String → Message
  result : Option ℕ → Bool → Message
  other : Option ℕ → Message

pub data Observation : Type 0 where
  protocol_error : RpcCode → Observation
  tool_rejection : Observation

abbrev pub id_of : Message → Option ℕ
id_of (error id code text) = id
id_of (result id is_error) = id
id_of (other id) = id

-- What is written to the audit before the message is sent; `recorded` is `toolOutcomeRecorded` of
-- the current request.
unfoldable pub observations : Bool → Message → List Observation
observations recorded (error id code text) = protocol_error code ∷ []
observations recorded (result id is_error) =
    if is_error && not recorded then tool_rejection ∷ [] else []
observations recorded (other id) = []

pub data Sent : Type 0 where
  sends : Message → Sent
  throws : Thrown → Sent

abbrev pub audit_loss : ℕ → Message
audit_loss id = error (some id) (below_zero 32603) "audit_unavailable"

-- The `catch` of the wrapped `send`.
abbrev pub on_audit_loss : Option ℕ → Sent
on_audit_loss none = throws (runtime_failure audit_unavailable)
on_audit_loss (some id) = sends (audit_loss id)

abbrev pub all_written : (Observation → Bool) → List Observation → Bool
all_written write os = all write os

-- The wrapped `transport.send`; `write` says whether the audit accepts a record.
unfoldable pub send : (Observation → Bool) → Bool → Message → Sent
unfolding observations
send write recorded message =
    if all_written write (observations recorded message)
    then sends message
    else on_audit_loss (id_of message)

-- An incoming message: its method and id, if it has them, and `params.arguments`.
pub record Incoming : Type 0 where
  pub method : Option String
  pub id : Option ℕ
  pub arguments : JsValue

pub data Received : Type 0 where
  -- handed to the SDK, for a request in a context of its own
  forwarded : Bool → Received
  -- answered through the wrapped `send`
  rejected : Message → Received

abbrev pub invalid_arguments : ℕ → Message
invalid_arguments id = error (some id) (below_zero 32602) "Invalid arguments"

unfoldable pub receive_request : Heap → String → ℕ → JsValue → Received
receive_request heap method id arguments =
    if str_eq method "tools/call" && has_reserved_key heap arguments
    then rejected (invalid_arguments id)
    else forwarded true

-- The wrapped `transport.onmessage`.
unfoldable pub receive : Heap → Incoming → Received
unfolding receive_request
receive heap m = elim m.method [
  | none ↦ forwarded false
  | some method ↦ elim m.id [
    | none ↦ forwarded false
    | some id ↦ receive_request heap method id m.arguments
  ]
]

-- `server.observeProtocolError` of src/runtime.ts: the audited outcome of a code.
unfoldable pub protocol_outcome : RpcCode → String
protocol_outcome (below_zero n) =
    if n == 32700
    then "parse_error"
    else if n == 32600
    then "invalid_request"
    else if n == 32601
    then "unknown_method"
    else if n == 32602
    then "invalid_params"
    else "protocol_error"
protocol_outcome (from_zero n) = "protocol_error"
