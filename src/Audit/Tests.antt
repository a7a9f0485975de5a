-- ===== src/Audit/Tests.antt =====
-- Actors and the wire gate at concrete inputs.
use secure_mcp.Shared.{◌≡◌, refl, true, false, none, some, []}
use secure_mcp.Policy.{Principal}
use secure_mcp.Input.{object, Heap, has_reserved_key}
use secure_mcp.Audit.Wire.{
  error, result, below_zero, send, sends, audit_loss, Incoming, receive, rejected,
  invalid_arguments, protocol_outcome,
}
use secure_mcp.Audit.Wire.Gate.{Gated, send-Gated}

abbrev user : Principal
user = record { subject = "u1"; issuer = "https://id.test"; scopes = []; expires_at = none }

abbrev poisoned : Heap
poisoned r = record { is_array = false; reserved = true; entries = [] }

abbrev call : Incoming
call = record { method = some "tools/call"; id = some 4; arguments = object 0 }

wire_tests :
    (send (λ _. false) false (error (some 4) (below_zero 32601) "no such method")
      ≡ sends (audit_loss 4))
    × (send (λ _. true) false (result (some 4) true) ≡ sends (result (some 4) true))
    × (receive poisoned call ≡ rejected (invalid_arguments 4))
    × (protocol_outcome (below_zero 32601) ≡ "unknown_method")
unfolding send receive protocol_outcome has_reserved_key
wire_tests = (refl, refl, refl, refl)

send-Gated_example :
    Gated (λ _. false) false (result (some 4) true) (send (λ _. false) false (result (some 4) true))
send-Gated_example = send-Gated (λ _. false) false (result (some 4) true)
