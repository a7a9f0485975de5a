-- ===== src/Runtime/Registry/Visible.antt =====
-- The registry that `create` returns, and the agreement of discovery with invocation.
use secure_mcp.Shared.{
  ℕ, String, ◌≡◌, refl, sym, ap, ◌∙◌, inl, inr, true, false, some, List, [], ◌∷◌, ◌++◌, map, arith,
  str_eq, eq_iff, Option-cases, all, codes, includes, subst,
}
use secure_mcp.Policy.{Principal, ToolPolicy, PolicyOptions}
use secure_mcp.Runtime.{find, permitted, World}
use secure_mcp.Runtime.Registry.{
  is_name, has, has_scopes, register, register_all, create, visible_tools,
}

-- A registry: well-formed tools, no two of one name.
abbrev pub IsRegistry : List ToolPolicy → Type 0
IsRegistry [] = Unit
IsRegistry (t ∷ ts) =
    (has ts t.name ≡ false)
    × (is_name (codes t.name) ≡ true)
    × (has_scopes t.required_scopes ≡ true)
    × IsRegistry ts

has-snoc :
    (ts : List ToolPolicy) (t : ToolPolicy) (name : String)
    → has ts name ≡ false
    → str_eq t.name name ≡ false
    → has (ts ++ t ∷ []) name ≡ false
unfolding find
has-snoc [] t name h k = ground arith
has-snoc (u ∷ ts) t name h k = let rest = has-snoc ts t name in ground arith

IsRegistry-snoc :
    (ts : List ToolPolicy) (t : ToolPolicy)
    → IsRegistry ts
    → has ts t.name ≡ false
    → is_name (codes t.name) ≡ true
    → has_scopes t.required_scopes ≡ true
    → IsRegistry (ts ++ t ∷ [])
unfolding find
IsRegistry-snoc [] t r h n k = (refl, n, k, tt)
IsRegistry-snoc (u ∷ ts) t (fresh, named, scoped, r) h n k = (
  has-snoc ts t u.name fresh (ground (arith, eq_iff t.name u.name, eq_iff u.name t.name)),
  named,
  scoped,
  IsRegistry-snoc ts t r (ground arith) n k,
)

register-IsRegistry :
    (registry : List ToolPolicy) (tool : ToolPolicy) (next : List ToolPolicy)
    → IsRegistry registry
    → register registry tool ≡ some next
    → IsRegistry next
unfolding register
register-IsRegistry registry tool next d h =
    subst IsRegistry (ground arith)
      (IsRegistry-snoc registry tool d (ground arith) (ground arith) (ground arith))

pub register_all-IsRegistry :
    (registry tools : List ToolPolicy) (next : List ToolPolicy)
    → IsRegistry registry
    → register_all registry tools ≡ some next
    → IsRegistry next
unfolding register_all
register_all-IsRegistry registry [] next r h = subst IsRegistry (cc) r
register_all-IsRegistry registry (tool ∷ tools) next r h =
    elim (Option-cases (register registry tool)) [
      | inl e ↦ absurd (ground (arith, e, h))
      | inr (m, e) ↦
          register_all-IsRegistry m tools next (register-IsRegistry registry tool m r e)
            (ground (arith, e, h))
    ]

pub create-IsRegistry :
    (policy : PolicyOptions) (tools : List ToolPolicy) (registry : List ToolPolicy)
    → create policy tools ≡ some registry
    → IsRegistry registry × (all (has registry) policy.allowed_tools ≡ true)
unfolding create
create-IsRegistry policy tools registry h = elim (Option-cases (register_all [] tools)) [
  | inl e ↦ absurd (ground (arith, e, h))
  | inr (m, e) ↦ (
    subst IsRegistry (ground (arith, e, h)) (register_all-IsRegistry [] tools m tt e),
    ground (arith, e, h),
  )
]

In-visible :
    (now_ms : ℕ) (policy : PolicyOptions) (principal : Principal) (ts : List ToolPolicy)
    (name : String)
    → has ts name ≡ false
    → includes (map (λ (t : ToolPolicy). t.name) (visible_tools now_ms policy principal ts)) name
      ≡ false
unfolding visible_tools find
In-visible now_ms policy principal [] name h = refl
In-visible now_ms policy principal (t ∷ ts) name h =
    let rest = In-visible now_ms policy principal ts name in ground (arith, rest)

visible_iff :
    (w : World) (policy : PolicyOptions) (principal : Principal) (ts : List ToolPolicy)
    (name : String)
    → IsRegistry ts
    → includes (map (λ (t : ToolPolicy). t.name) (visible_tools w.now_ms policy principal ts)) name
      ≡ permitted w policy principal (find ts name)
unfolding visible_tools find
visible_iff w policy principal [] name r = refl
visible_iff w policy principal (t ∷ ts) name (fresh, named, scoped, r) =
    let rest = visible_iff w policy principal ts name r in
    let hidden = λ (e : str_eq t.name name ≡ true).
      In-visible w.now_ms policy principal ts name
        (ap (has ts) (sym ((eq_iff t.name name).0 e)) ∙ fresh) in
    ground (arith, rest, hidden)

-- When `create` succeeds, every allowed tool is registered, under a valid name and with explicit
-- scopes, no two tools share a name, and for every principal the names that discovery lists are
-- exactly the names whose call the policy permits at the same time.
pub create-visible_tools :
    (w : World) (policy : PolicyOptions) (principal : Principal) (tools : List ToolPolicy)
    (registry : List ToolPolicy) (name : String)
    → create policy tools ≡ some registry
    → IsRegistry registry
      × (all (has registry) policy.allowed_tools ≡ true)
      × (includes
            (map (λ (t : ToolPolicy). t.name) (visible_tools w.now_ms policy principal registry))
            name
          ≡ permitted w policy principal (find registry name))
create-visible_tools w policy principal tools registry name h =
    let (r, found) = create-IsRegistry policy tools registry h in
    (r, found, visible_iff w policy principal registry name r)
