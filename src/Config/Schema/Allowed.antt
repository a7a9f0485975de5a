-- ===== src/Config/Schema/Allowed.antt =====
-- What an accepted configuration may hold.
use secure_mcp.Shared.{
  String, ◌≡◌, refl, Bool, true, false, Option, none, some, [], ◌∷◌, arith, if◌then◌else◌, all,
  includes, subst, some-injective,
}
use secure_mcp.Config.Values.{
  is_missing, Json, ◌>>=◌, get, strict, integer, flag, checked_text, text_list, is_name, is_scope,
  or_empty, optional,
}
use secure_mcp.Config.Schema.{
  is_socket_path, host_of, transport_of, workspace_of, settings_of, Url, Limits, AuditOptions,
  HttpOptions, ApiOptions, Settings, limits_of, audit_of, is_url, is_origin, http_of, api_of,
  transport_of, workspace_of, settings_of,
}
use secure_mcp.Config.Schema.Urls.{IsUrl, is_url-IsUrl}
use secure_mcp.Config.Schema.Bounded.{
  bind-some, IsIn, integer-IsIn, checked_text_lem, IsList, text_list-IsList,
}

-- The bounds of the code.
abbrev pub AreLimits : Limits → Type 0
AreLimits l =
    IsIn 1 256 l.max_concurrent
    × IsIn 10 300000 l.timeout_ms
    × IsIn 1024 4194304 l.max_input_bytes
    × IsIn 1 10000 l.max_input_elements
    × IsIn 1024 4194304 l.max_output_bytes
    × IsIn 10 30000 l.shutdown_ms

abbrev pub AreAuditOptions : AuditOptions → Type 0
AreAuditOptions a = IsIn 1 1024 a.max_pending × IsIn 10 5000 a.timeout_ms

standard_names : all is_name ("documents_read" ∷ "policy_status" ∷ []) ≡ true
unfolding is_name
standard_names = refl

are_standard : all is_scope ("documents:read" ∷ "policy:read" ∷ []) ≡ true
unfolding is_scope
are_standard = refl

module _ (parse_url : String → Option Url) where
  abbrev pub AreHttpOptions : Option HttpOptions → Type 0
  AreHttpOptions none = Unit
  AreHttpOptions (some o) =
      IsUrl parse_url o.resource
      × IsUrl parse_url o.issuer
      × IsUrl parse_url o.jwks_url
      × IsList (is_origin parse_url) 0 32 o.allowed_origins
      × IsList (includes ("RS256" ∷ "ES256" ∷ "EdDSA" ∷ [])) 1 3 o.algorithms
      × IsIn 0 65535 o.port
      × IsIn 1 3600 o.max_token_age_seconds

  abbrev pub AreApiOptions : Option ApiOptions → Type 0
  AreApiOptions none = Unit
  AreApiOptions (some o) = IsUrl parse_url o.url × IsIn 1 262144 o.max_bytes

  abbrev pub AreAllowed : Settings → Type 0
  AreAllowed s =
      AreLimits s.limits
      × AreAuditOptions s.audit
      × IsList is_name 0 128 s.allowed_tools
      × IsList is_scope 0 128 s.local_scopes
      × AreHttpOptions s.http_options
      × AreApiOptions s.api

  limits_of-AreLimits : (v : Json) (l : Limits) → limits_of v ≡ some l → AreLimits l
  unfolding limits_of
  limits_of-AreLimits v l e =
      let (o, _, e0) = bind-some (strict _ (or_empty v)) _ l e in
      let (a, ha, e1) = bind-some (integer 1 256 16 (get "maxConcurrent" o)) _ l e0 in
      let (b, hb, e2) = bind-some (integer 10 300000 10000 (get "timeoutMs" o)) _ l e1 in
      let (c, hc, e3) = bind-some (integer 1024 4194304 65536 (get "maxInputBytes" o)) _ l e2 in
      let (d, hd, e4) = bind-some (integer 1 10000 1024 (get "maxInputElements" o)) _ l e3 in
      let (f, hf, e5) = bind-some (integer 1024 4194304 262144 (get "maxOutputBytes" o)) _ l e4 in
      let (g, hg, e6) = bind-some (integer 10 30000 5000 (get "shutdownMs" o)) _ l e5 in
      subst AreLimits (some-injective _ _ e6) (
        integer-IsIn 1 256 16 a _ (omega arith, omega arith) ha,
        integer-IsIn 10 300000 10000 b _ (omega arith, omega arith) hb,
        integer-IsIn 1024 4194304 65536 c _ (omega arith, omega arith) hc,
        integer-IsIn 1 10000 1024 d _ (omega arith, omega arith) hd,
        integer-IsIn 1024 4194304 262144 f _ (omega arith, omega arith) hf,
        integer-IsIn 10 30000 5000 g _ (omega arith, omega arith) hg,
      )

  audit_of-AreAuditOptions : (v : Json) (a : AuditOptions) → audit_of v ≡ some a → AreAuditOptions a
  unfolding audit_of
  audit_of-AreAuditOptions v a e =
      let (o, _, e0) = bind-some (strict _ (or_empty v)) _ a e in
      let (path, _, e1) =
        bind-some (optional (checked_text is_socket_path) (get "socketPath" o)) _ a e0 in
      let (b, hb, e2) = bind-some (integer 1 1024 64 (get "maxPending" o)) _ a e1 in
      let (c, hc, e3) = bind-some (integer 10 5000 1000 (get "timeoutMs" o)) _ a e2 in
      subst AreAuditOptions (some-injective _ _ e3) (
        integer-IsIn 1 1024 64 b _ (omega arith, omega arith) hb,
        integer-IsIn 10 5000 1000 c _ (omega arith, omega arith) hc,
      )

  http_of-AreHttpOptions :
      (v : Json) (h : HttpOptions) → http_of parse_url v ≡ some h → AreHttpOptions (some h)
  unfolding http_of
  http_of-AreHttpOptions v h e =
      let (o, _, e0) = bind-some (strict _ v) _ h e in
      let (host, _, e1) = bind-some (host_of (get "host" o)) _ h e0 in
      let (port, hp, e2) = bind-some (integer 0 65535 3000 (get "port" o)) _ h e1 in
      let u = is_url parse_url in
      let (resource, hr, e3) = bind-some (checked_text u (get "resource" o)) _ h e2 in
      let (issuer, hi, e4) = bind-some (checked_text u (get "issuer" o)) _ h e3 in
      let (jwks, hj, e5) = bind-some (checked_text u (get "jwksUrl" o)) _ h e4 in
      let (origins, ho, e6) =
        bind-some (text_list (is_origin parse_url) 0 32 [] (get "allowedOrigins" o)) _ h e5 in
      let known = includes ("RS256" ∷ "ES256" ∷ "EdDSA" ∷ []) in
      let (algorithms, hg, e7) =
        bind-some (text_list known 1 3 ("RS256" ∷ []) (get "algorithms" o)) _ h e6 in
      let (age, ha, e8) = bind-some (integer 1 3600 900 (get "maxTokenAgeSeconds" o)) _ h e7 in
      subst (λ x. AreHttpOptions (some x)) (some-injective _ _ e8)
        (
          is_url-IsUrl parse_url resource (checked_text_lem u _ resource hr),
          is_url-IsUrl parse_url issuer (checked_text_lem u _ issuer hi),
          is_url-IsUrl parse_url jwks (checked_text_lem u _ jwks hj),
          text_list-IsList (is_origin parse_url) 0 32 [] origins _
              (refl, (omega arith, omega arith)) ho,
          text_list-IsList known 1 3 ("RS256" ∷ []) algorithms _ (refl, (omega arith, omega arith))
              hg,
          integer-IsIn 0 65535 3000 port _ (omega arith, omega arith) hp,
          integer-IsIn 1 3600 900 age _ (omega arith, omega arith) ha,
        )

  api_of-AreApiOptions :
      (v : Json) (a : ApiOptions) → api_of parse_url v ≡ some a → AreApiOptions (some a)
  unfolding api_of
  api_of-AreApiOptions v a e =
      let (o, _, e0) = bind-some (strict _ v) _ a e in
      let (url, hu, e1) = bind-some (checked_text (is_url parse_url) (get "url" o)) _ a e0 in
      let (bytes, hb, e2) = bind-some (integer 1 262144 65536 (get "maxBytes" o)) _ a e1 in
      subst (λ x. AreApiOptions (some x)) (some-injective _ _ e2)
        (
          is_url-IsUrl parse_url url (checked_text_lem (is_url parse_url) _ url hu),
          integer-IsIn 1 262144 65536 bytes _ (omega arith, omega arith) hb,
        )

  -- A part that may be left out.
  optional_lem :
      {A : Type 0} (read : Json → Option A) (P : Option A → Type 0) (v : Json) (o : Option A)
      → P none
      → ((a : A) → read v ≡ some a → P (some a))
      → optional read v ≡ some o
      → P o
  optional_lem {A} read P v o without present e = go (is_missing v) e
    where
      go : (c : Bool) → (if c then some none else (read v >>= λ a. some (some a))) ≡ some o → P o
      go true e = subst P (some-injective _ _ e) without
      go false e =
          let (a, h, e1) = bind-some (read v) _ o e in subst P (some-injective _ _ e1) (present a h)

  pub settings_of-AreAllowed :
      (v : Json) (s : Settings) → settings_of parse_url v ≡ some s → AreAllowed s
  unfolding settings_of
  settings_of-AreAllowed v s e =
      let (o, _, e0) = bind-some (strict _ v) _ s e in
      let (transport, _, e1) = bind-some (transport_of parse_url (get "transport" o)) _ s e0 in
      let (workspace, _, e2) = bind-some (workspace_of parse_url (get "workspace" o)) _ s e1 in
      let standard_tools = "documents_read" ∷ "policy_status" ∷ [] in
      let (tools, ht, e3) =
        bind-some (text_list is_name 0 128 standard_tools (get "allowedTools" o)) _ s e2 in
      let (read_only, _, e4) = bind-some (flag true (get "readOnly" o)) _ s e3 in
      let (audit, ha, e5) = bind-some (audit_of (get "audit" o)) _ s e4 in
      let standard_scopes = "documents:read" ∷ "policy:read" ∷ [] in
      let (scopes, hs, e6) =
        bind-some (text_list is_scope 0 128 standard_scopes (get "localScopes" o)) _ s e5 in
      let (limits, hl, e7) = bind-some (limits_of (get "limits" o)) _ s e6 in
      let (options, hh, e8) = bind-some (optional (http_of parse_url) (get "http" o)) _ s e7 in
      let (api, hi, e9) = bind-some (optional (api_of parse_url) (get "api" o)) _ s e8 in
      subst AreAllowed (some-injective _ _ e9) (
        limits_of-AreLimits _ limits hl,
        audit_of-AreAuditOptions _ audit ha,
        text_list-IsList is_name 0 128 standard_tools tools _
            (standard_names, (omega arith, omega arith)) ht,
        text_list-IsList is_scope 0 128 standard_scopes scopes _
            (are_standard, (omega arith, omega arith)) hs,
        optional_lem (http_of parse_url) AreHttpOptions _ options tt (http_of-AreHttpOptions _) hh,
        optional_lem (api_of parse_url) AreApiOptions _ api tt (api_of-AreApiOptions _) hi,
      )
