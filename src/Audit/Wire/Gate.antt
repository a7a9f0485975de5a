-- ===== src/Audit/Wire/Gate.antt =====
-- What passes AuditedMcpServer in each direction.
use secure_mcp.Shared.{
  ℕ, String, ◌≡◌, refl, ◌⊎◌, inl, inr, Bool, true, false, Option, none, some, arith, eq_iff,
  Bool-cases, Option-cases,
}
use secure_mcp.Errors.{runtime_failure, audit_unavailable}
use secure_mcp.Input.{Heap, JsValue, has_reserved_key}
use secure_mcp.Audit.Wire.{
  error, result, other, below_zero, protocol_error, tool_rejection, on_audit_loss, Message,
  Observation, send, Sent, sends, throws, id_of, Incoming, forwarded, rejected, receive,
  receive_request, invalid_arguments,
}

-- That all that has to be on record about a message is: of an error its code, and of a result that is an
-- error, unless the call's outcome is already recorded, that a tool was rejected.
abbrev pub IsAudited : (Observation → Bool) → Bool → Message → Type 0
IsAudited write recorded (error id code text) = write (protocol_error code) ≡ true
IsAudited write recorded (result id true) = (recorded ≡ true) ⊎ (write tool_rejection ≡ true)
IsAudited write recorded (result id false) = Unit
IsAudited write recorded (other id) = Unit

-- That the audit has refused what has to be on record.
abbrev pub IsRefused : (Observation → Bool) → Bool → Message → Type 0
IsRefused write recorded (error id code text) = write (protocol_error code) ≡ false
IsRefused write recorded (result id true) = (recorded ≡ false) × (write tool_rejection ≡ false)
IsRefused write recorded (result id false) = ⊥
IsRefused write recorded (other id) = ⊥

-- What follows: the message unchanged; or a fixed error with the same id in its place, or, where there
-- is no id, a throw.
pub data Gated (write : Observation → Bool) (recorded : Bool) (message : Message)
    : Sent → Type 0 where
  unchanged : IsAudited write recorded message → Gated write recorded message (sends message)
  replaced :
      (id : ℕ)
      → id_of message ≡ some id
      → IsRefused write recorded message
      → Gated write recorded message
          (sends (error (some id) (below_zero 32603) "audit_unavailable"))
  refused :
      id_of message ≡ none
      → IsRefused write recorded message
      → Gated write recorded message (throws (runtime_failure audit_unavailable))

refused-Gated :
    (write : Observation → Bool) (recorded : Bool) (message : Message)
    → IsRefused write recorded message
    → Gated write recorded message (on_audit_loss (id_of message))
refused-Gated write recorded message h = go (id_of message) refl
  where
    go : (o : Option ℕ) → id_of message ≡ o → Gated write recorded message (on_audit_loss o)
    go none e = refused e h
    go (some id) e = replaced id e h

-- Every message that `send` is given is sent unchanged only if the audit has acknowledged the code of
-- an error, and the rejection of a tool whose outcome is not on record yet; if the audit refuses this, a
-- fixed error with the same id is sent in its place, or, without an id, `send` throws.
pub send-Gated :
    (write : Observation → Bool) (recorded : Bool) (message : Message)
    → Gated write recorded message (send write recorded message)
unfolding send
send-Gated write recorded (error id code text) = elim (Bool-cases (write (protocol_error code))) [
  | inl kept ↦ rw (send, kept) (unchanged kept)
  | inr lost ↦ rw (send, lost) (refused-Gated write recorded (error id code text) lost)
]
send-Gated write true (result id true) = unchanged (inl refl)
send-Gated write false (result id true) = elim (Bool-cases (write tool_rejection)) [
  | inl kept ↦ rw (send, kept) (unchanged (inr kept))
  | inr lost ↦ rw (send, lost) (refused-Gated write false (result id true) (refl, lost))
]
send-Gated write recorded (result id false) = unchanged tt
send-Gated write recorded (other id) = unchanged tt

-- A request that calls a tool reaches the SDK exactly if its arguments have no own `__proto__` key;
-- otherwise it is answered by the fixed error `Invalid arguments` under its own id.
pub receive_tool_call :
    (heap : Heap) (m : Incoming) (id : ℕ)
    → m.method ≡ some "tools/call"
    → m.id ≡ some id
    → (has_reserved_key heap m.arguments ≡ false) × (receive heap m ≡ forwarded true)
      ⊎ (has_reserved_key heap m.arguments ≡ true)
        × (receive heap m ≡ rejected (invalid_arguments id))
unfolding receive
receive_tool_call heap m id e f = ground (arith, eq_iff "tools/call" "tools/call")

receive_request-rejected :
    (heap : Heap) (method : String) (id : ℕ) (arguments : JsValue) (answer : Message)
    → receive_request heap method id arguments ≡ rejected answer
    → (method ≡ "tools/call") × (has_reserved_key heap arguments ≡ true)
unfolding receive_request
receive_request-rejected heap method id arguments answer e =
    ground (arith, eq_iff method "tools/call")

-- Nothing but a tool call is ever rejected here.
pub receive-rejected :
    (heap : Heap) (m : Incoming) (answer : Message)
    → receive heap m ≡ rejected answer
    → (m.method ≡ some "tools/call") × (has_reserved_key heap m.arguments ≡ true)
unfolding receive
receive-rejected heap m answer e = elim (Option-cases m.method) [
  | inl absent ↦ absurd (cc (rw absent at e))
  | inr (method, named) ↦ elim (Option-cases m.id) [
    | inl absent ↦ absurd (ground arith)
    | inr (id, present) ↦ ground (arith, receive_request-rejected heap method id m.arguments answer)
  ]
]
