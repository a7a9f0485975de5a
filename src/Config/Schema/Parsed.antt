-- ===== src/Config/Schema/Parsed.antt =====
-- What `parseConfig` accepts.
use secure_mcp.Shared.{
  ◌*◌, ◌/◌, ◌≤◌, min, String, ◌≡◌, refl, sym, inl, inr, false, Option, some, arith, Option-cases,
  subst, some-injective,
}
use secure_mcp.Config.{RuntimeConfig, http, parse_config, issues, is_none, has_wrong_path}
use secure_mcp.Config.Accepted.{accepted_cases, parse_config-http}
use secure_mcp.Config.Values.{Json}
use secure_mcp.Config.Schema.{Url, Settings, settings_of, schema_of}
use secure_mcp.Config.Schema.Bounded.{bind-some}
use secure_mcp.Config.Schema.Allowed.{AreAllowed, settings_of-AreAllowed}

module _ (parse_url : String → Option Url) where
  schema_of-others :
      (v : Json) (c : RuntimeConfig Settings)
      → schema_of parse_url v ≡ some c
      → AreAllowed parse_url c.others × (c.max_concurrent ≡ c.others.limits.max_concurrent)
  unfolding schema_of
  schema_of-others v c e =
      let (s, h, e1) = bind-some (settings_of parse_url v) _ c e in
      subst
        (λ (x : RuntimeConfig Settings).
          AreAllowed parse_url x.others × (x.max_concurrent ≡ x.others.limits.max_concurrent))
        (some-injective _ _ e1) (settings_of-AreAllowed parse_url v s h, refl)

  some_calls :
      (v : Json) (c : RuntimeConfig Settings)
      → schema_of parse_url v ≡ some c
      → 1 ≤ c.max_concurrent
  some_calls v c e =
      let (allowed, same_number) = schema_of-others v c e in
      subst (λ n. 1 ≤ n) (sym same_number) allowed.0.0.0

  -- If `parseConfig` accepts a value of JSON, then every number is within the bounds of the code, the
  -- lists are no longer than they may be, tools and scopes are names and scopes, every URL has no
  -- credentials, query or fragment and is https, or http on loopback, and origins are origins; for HTTP
  -- there is a resource whose path is `/mcp` where the URL parser can read it, and at least one request
  -- is admitted.
  pub parse_config-AreAllowed :
      (pathname : String → Option String) (resolve : String → String) (v : Json)
      (c : RuntimeConfig Settings)
      → parse_config (schema_of parse_url) pathname resolve v ≡ some c
      → AreAllowed parse_url c.others
        × (c.transport ≡ http
            → (is_none c.http_resource ≡ false)
              × (has_wrong_path pathname c.http_resource ≡ false)
              × (1 ≤ min (c.max_concurrent * 2) (c.max_pending / 3)))
  unfolding parse_config
  parse_config-AreAllowed pathname resolve v c e = (
    elim (Option-cases (schema_of parse_url v)) [
      | inl failed ↦ absurd (ground (arith, failed, e))
      | inr (d, h) ↦
          let (_, made) =
            accepted_cases resolve d c (issues pathname d) (rw (parse_config, h) at e) in
          subst (λ (x : RuntimeConfig Settings). AreAllowed parse_url x.others) made
            (schema_of-others v d h).0
    ],
    λ t.
        parse_config-http (schema_of parse_url) pathname resolve v c (λ w d h. some_calls w d h) e
          t,
  )
