-- ===== src/Policy/Laws.antt =====
-- What `mayInvoke` decides, and how it depends on time and scopes.
use secure_mcp.Shared.{
  ℕ, ◌*◌, ◌<◌, ◌≤◌, ◌≡◌, ◌≢◌, ◌↔◌, ◌⊎◌, true, false, List, [], ◌∷◌, Option, none, some, String, all,
  All, all-All, All-all, All-mono, In, includes, includes_iff, is_empty, arith, refl,
}
use secure_mcp.Policy.{Principal, ToolPolicy, PolicyOptions, is_current, has_any, may_invoke}

-- The expiry, if there is one, lies after the current time.
abbrev pub Unexpired : ℕ → Option ℕ → Type 0
Unexpired now_ms none = Unit
Unexpired now_ms (some expires) = now_ms < expires * 1000

-- The conditions for a call, one to a field.
pub record Permitted (now_ms : ℕ) (policy : PolicyOptions) (principal : Principal)
    (tool : ToolPolicy) : Type 0 where
  pub named : is_empty principal.subject ≡ false
  pub unexpired : Unexpired now_ms principal.expires_at
  pub listed : In tool.name policy.allowed_tools
  pub effects : (policy.read_only ≡ false) ⊎ (tool.read_only ≡ true)
  pub scoped : tool.required_scopes ≢ []
  pub granted : All (λ scope. In scope principal.scopes) tool.required_scopes

all_granted_iff :
    (held needed : List String)
    → (all (includes held) needed ≡ true) ↔ All (λ scope. In scope held) needed
all_granted_iff held needed = (
  all-All _ (includes held) needed (λ s. (includes_iff held s).0),
  All-all _ (includes held) needed (λ s. (includes_iff held s).1),
)

is_current_iff : (now_ms : ℕ) (o : Option ℕ) → (is_current now_ms o ≡ true) ↔ Unexpired now_ms o
unfolding is_current
is_current_iff now_ms none = (λ h. tt, λ h. refl)
is_current_iff now_ms (some e) = ground arith

has_any_iff : (ts : List String) → (has_any ts ≡ true) ↔ (ts ≢ [])
has_any_iff [] = ground arith
has_any_iff (t ∷ ts) = ground arith

-- A call is allowed exactly when the subject is named, the token has not expired, the tool is
-- allowlisted, read-only mode admits it, and it asks for at least one scope and for none that the
-- principal lacks.
pub may_invoke_iff :
    (now_ms : ℕ) (policy : PolicyOptions) (principal : Principal) (tool : ToolPolicy)
    → (may_invoke now_ms policy principal tool ≡ true) ↔ Permitted now_ms policy principal tool
unfolding may_invoke
may_invoke_iff now_ms policy principal tool = ground (
  arith,
  is_current_iff now_ms principal.expires_at,
  includes_iff policy.allowed_tools tool.name,
  has_any_iff tool.required_scopes,
  all_granted_iff principal.scopes tool.required_scopes,
)

Unexpired-earlier :
    (earlier later : ℕ) (o : Option ℕ) → earlier ≤ later → Unexpired later o → Unexpired earlier o
Unexpired-earlier earlier later none h u = tt
Unexpired-earlier earlier later (some e) h u = omega arith

-- Time only takes permission away and scopes only add it: a call that is allowed was allowed at
-- every earlier time, with any set of scopes that includes the principal's.
pub may_invoke_mono :
    (earlier later : ℕ) (policy : PolicyOptions) (principal : Principal) (more : List String)
    (tool : ToolPolicy)
    → earlier ≤ later
    → ((s : String) → In s principal.scopes → In s more)
    → may_invoke later policy principal tool ≡ true
    → may_invoke earlier policy (record principal { scopes = more }) tool ≡ true
may_invoke_mono earlier later policy principal more tool h wider m =
    let p = (may_invoke_iff later policy principal tool).0 m in
    (may_invoke_iff earlier policy (record principal { scopes = more }) tool).1 (record {
      named = p.named;
      unexpired = Unexpired-earlier earlier later principal.expires_at h p.unexpired;
      listed = p.listed;
      effects = p.effects;
      scoped = p.scoped;
      granted = All-mono _ _ tool.required_scopes wider p.granted;
    })
