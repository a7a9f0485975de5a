-- ===== src/Policy.antt =====
-- src/policy.ts: who may call which tool. `Date.now()` is the argument `now_ms`; token expiry is in
-- whole seconds.
pub mod Laws
mod Tests
use secure_mcp.Shared.{
  ℕ, ◌*◌, Bool, true, not, ◌&&◌, ◌||◌, List, [], ◌∷◌, Option, none, some, String, ltb, all,
  includes, is_empty,
}

pub record Principal : Type 0 where
  pub subject : String
  pub issuer : String
  pub scopes : List String
  pub expires_at : Option ℕ

pub record ToolPolicy : Type 0 where
  pub name : String
  pub required_scopes : List String
  pub read_only : Bool

pub record PolicyOptions : Type 0 where
  pub allowed_tools : List String
  pub read_only : Bool

-- `expiresAt === undefined || expiresAt > Date.now() / 1000`
unfoldable pub is_current : ℕ → Option ℕ → Bool
is_current now_ms none = true
is_current now_ms (some expires) = ltb now_ms (expires * 1000)

abbrev pub has_any : List String → Bool
has_any [] = Bool.false
has_any (_ ∷ _) = true

unfoldable pub may_invoke : ℕ → PolicyOptions → Principal → ToolPolicy → Bool
unfolding is_current
may_invoke now_ms policy principal tool =
    not (is_empty principal.subject)
    && (is_current now_ms principal.expires_at
        && (includes policy.allowed_tools tool.name
            && ((not policy.read_only || tool.read_only)
                && (has_any tool.required_scopes
                    && all (includes principal.scopes) tool.required_scopes))))
