-- ===== src/Config/Accepted.antt =====
-- What an accepted configuration gives the HTTP transport.
use secure_mcp.Shared.{
  ◌*◌, ◌/◌, ◌≤◌, min, String, ◌≡◌, refl, inl, inr, false, ◌&&◌, Option, some, List, [], ◌∷◌, arith,
  ltb, Option-cases, subst, some-injective,
}
use secure_mcp.Config.{
  RuntimeConfig, http, Issue, issues, accepted, parse_config, is_http, is_none, has_wrong_path,
}

module _ {E : Type 0} where
  no_issues :
      (pathname : String → Option String) (c : RuntimeConfig E)
      → issues pathname c ≡ []
      → (is_http c.transport && ltb c.max_pending 3 ≡ false)
        × (is_http c.transport && is_none c.http_resource ≡ false)
        × (has_wrong_path pathname c.http_resource ≡ false)
  unfolding issues
  no_issues pathname c h = (ground arith, ground arith, ground arith)

  pub accepted_cases :
      (resolve : String → String) (c d : RuntimeConfig E) (is : List Issue)
      → accepted resolve c is ≡ some d
      → (is ≡ []) × (record c { workspace = resolve c.workspace } ≡ d)
  accepted_cases resolve c d [] h = (refl, some-injective _ _ h)
  accepted_cases resolve c d (i ∷ is) h = absurd (cc)

  -- If a configuration for HTTP is accepted, from a schema whose values allow at least one concurrent
  -- call, then it has a resource whose path is `/mcp` where the URL parser can read it, and the number
  -- of requests that the server admits is at least one.
  pub parse_config-http :
      {V : Type 0} (schema : V → Option (RuntimeConfig E)) (pathname : String → Option String)
      (resolve : String → String) (v : V) (c : RuntimeConfig E)
      → ((w : V) (d : RuntimeConfig E) → schema w ≡ some d → 1 ≤ d.max_concurrent)
      → parse_config schema pathname resolve v ≡ some c
      → c.transport ≡ http
      → (is_none c.http_resource ≡ false)
        × (has_wrong_path pathname c.http_resource ≡ false)
        × (1 ≤ min (c.max_concurrent * 2) (c.max_pending / 3))
  unfolding parse_config
  parse_config-http schema pathname resolve v c bound h t = elim (Option-cases (schema v)) [
    | inl e ↦ absurd (ground (arith, e, h))
    | inr (d, e) ↦
        let (none_left, made) =
          accepted_cases resolve d c (issues pathname d) (rw (parse_config, e) at h) in
        let (few, missing, path) = no_issues pathname d none_left in
        let b = bound v d e in
        subst
          (λ (x : RuntimeConfig E).
            x.transport ≡ http
            → (is_none x.http_resource ≡ false)
              × (has_wrong_path pathname x.http_resource ≡ false)
              × (1 ≤ min (x.max_concurrent * 2) (x.max_pending / 3)))
          made (λ u. (ground arith, path, ground arith)) t
  ]
