-- ===== src/Policy/Tests.antt =====
-- Runs of `mayInvoke`, and the laws at concrete inputs.
use secure_mcp.Shared.{◌≡◌, refl, ◌↔◌, true, false, some, [], ◌∷◌}
use secure_mcp.Policy.{Principal, ToolPolicy, PolicyOptions, may_invoke}
use secure_mcp.Policy.Laws.{Permitted, may_invoke_iff}

abbrev caller : Principal
caller = record {
  subject = "u1";
  issuer = "https://id.test";
  scopes = "documents:read" ∷ [];
  expires_at = some 100;
}

abbrev reader : ToolPolicy
reader = record {
  name = "documents_read";
  required_scopes = "documents:read" ∷ [];
  read_only = true;
}

abbrev options : PolicyOptions
options = record { allowed_tools = "documents_read" ∷ []; read_only = true }

decisions :
    (may_invoke 99999 options caller reader ≡ true)
    × (may_invoke 100000 options caller reader ≡ false)
    × (may_invoke 0 options (record caller { scopes = [] }) reader ≡ false)
    × (may_invoke 0 options caller (record reader { required_scopes = [] }) ≡ false)
    × (may_invoke 0 options caller (record reader { read_only = false }) ≡ false)
    × (may_invoke 0 options (record caller { subject = "" }) reader ≡ false)
unfolding may_invoke
decisions = (refl, refl, refl, refl, refl, refl)

may_invoke_iff_example :
    (may_invoke 500 options caller reader ≡ true) ↔ Permitted 500 options caller reader
may_invoke_iff_example = may_invoke_iff 500 options caller reader
