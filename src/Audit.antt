-- ===== src/Audit.antt =====
-- src/audit.ts: audit events and the pseudonymous context of a request. SHA-256 is a parameter, a
-- function on the code points that `update` is given in turn.
pub mod Dispatcher
pub mod Wire
pub mod Actor
mod Tests
use secure_mcp.Shared.{ℕ, ◌*◌, String, Option, List, ◌∷◌, ◌++◌, codes}
use secure_mcp.Policy.{Principal}

pub data Kind : Type 0 where
  tool http protocol : Kind

pub data Endpoint : Type 0 where
  mcp metrics health metadata other : Endpoint

pub data Method : Type 0 where
  get post delete options other : Method

pub record AuditContext : Type 0 where
  pub request_id : String
  pub tool : String
  pub actor : String

pub record AuditEvent : Type 0 where
  pub context : AuditContext
  pub open context use *
  pub outcome : String
  pub duration_ms : ℕ
  pub kind : Option Kind
  pub endpoint : Option Endpoint
  pub method : Option Method
  pub status : Option ℕ

-- The text that is hashed: the issuer, a NUL character, the subject.
abbrev pub actor_input : Principal → List ℕ
actor_input p = codes p.issuer ++ 0 ∷ codes p.subject

unfoldable pub audit_context : (List ℕ → String) → Principal → String → String → AuditContext
audit_context sha256 principal name request_id = record {
  request_id = request_id;
  tool = name;
  actor = sha256 (actor_input principal);
}
