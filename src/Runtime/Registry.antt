-- ===== src/Runtime/Registry.antt =====
-- src/runtime.ts: the registry of tools, as `create` fills it, and what a principal sees of it. The
-- `Map` is the list of its values in the order of their insertion.
pub mod Visible
use secure_mcp.Shared.{
  ℕ, String, Bool, true, false, not, ◌&&◌, ◌||◌, Option, none, some, List, [], ◌∷◌, ◌++◌, leb, ◌==◌,
  if◌then◌else◌, length, all, keep, codes, is_lower, is_digit,
}
use secure_mcp.Policy.{Principal, ToolPolicy, PolicyOptions, may_invoke}
use secure_mcp.Runtime.{find}

-- `/^[a-z][a-z0-9_]{0,63}$/`
abbrev pub is_name_char : ℕ → Bool
is_name_char c = is_lower c || (is_digit c || c == b'_')

abbrev pub is_name : List ℕ → Bool
is_name [] = false
is_name (c ∷ cs) = is_lower c && (all is_name_char cs && leb (length cs) 63)

-- `this.registry.has(name)`
abbrev pub has : List ToolPolicy → String → Bool
has registry name = elim (find registry name) [ none ↦ false | some _ ↦ true ]

abbrev pub has_scopes : List String → Bool
has_scopes [] = false
has_scopes (_ ∷ _) = true

-- `register`: `none` is the throw.
unfoldable pub register : List ToolPolicy → ToolPolicy → Option (List ToolPolicy)
register registry tool =
    if not (is_name (codes tool.name))
      || (has registry tool.name || not (has_scopes tool.required_scopes))
    then none
    else some (registry ++ tool ∷ [])

infixl 5 ◌>>=◌
abbrev ◌>>=◌ : {A B : Type 0} → Option A → (A → Option B) → Option B
none >>= f = none
some a >>= f = f a

-- `for (const tool of tools) runtime.register(tool)`
unfoldable pub register_all : List ToolPolicy → List ToolPolicy → Option (List ToolPolicy)
register_all registry [] = some registry
register_all registry (tool ∷ tools) = do next ← register registry tool; register_all next tools

-- The registry of `create`: every allowed name must be registered.
unfoldable pub create : PolicyOptions → List ToolPolicy → Option (List ToolPolicy)
create policy tools = do
  registry ← register_all [] tools
  if all (has registry) policy.allowed_tools then some registry else none

-- `visibleTools`
unfoldable pub visible_tools : ℕ → PolicyOptions → Principal → List ToolPolicy → List ToolPolicy
visible_tools now_ms policy principal registry = keep (may_invoke now_ms policy principal) registry
