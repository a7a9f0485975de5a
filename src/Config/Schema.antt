-- ===== src/Config/Schema.antt =====
-- src/config.ts: `configSchema` below its `superRefine`. The URL parser is a parameter.
pub mod Bounded
pub mod Urls
pub mod Allowed
pub mod Parsed
mod Tests
use secure_mcp.Shared.{
  ℕ, zero, suc, ◌+◌, ◌-◌, ◌*◌, ◌/◌, ◌%◌, ◌≤◌, ◌<◌, min, max, String, ◌≡◌, refl, sym, ap, ◌∙◌, ◌≢◌,
  ◌↔◌, ◌⊎◌, inl, inr, Bool, true, false, not, ◌&&◌, ◌||◌, Option, none, some, List, [], ◌∷◌, ◌++◌,
  map, arith, str_eq, eq_iff, ltb, leb, ◌==◌, if◌then◌else◌, ltb→lt, lt→ltb, leb→le, le→leb, ==_iff,
  Bool-cases, Option-cases, Bool-eq_of_iff, and_intro, and_left, and_right, length, all, any, keep,
  length-append, length-keep-le, take, drop, get_elem?, All, All-append, all-All, All-all, All-mono,
  In, In-append, In-append_right, codes, bit_and_31, bit_or_byte, includes, includes_iff, is_empty,
  units, is_lower, is_upper, is_digit, is_alnum, modify_at, tally, tally-append, tally-modify_at-le,
  All-modify_at, All-get_elem?, take-add, take_all, take-append_drop, length-drop, take-append,
  take-nil, drop-nil, drop-add, append-nil, append_assoc, ap₂, subst, some-injective,
}
use secure_mcp.Config.{Transport, stdio, http, RuntimeConfig}
use secure_mcp.Config.Values.{
  Json, missing, null, other_number, boolean, number, text, array, object, Items, end, item, Fields,
  no_field, field, ◌>>=◌, ensure, get, only_keys, strict, integer, flag, checked_text, texts,
  text_list, is_name, is_scope, or_empty, optional, one_of,
}

-- What `new URL(text)` has, where `z.url` and `URL.canParse` accept the text.
pub record Url : Type 0 where
  pub username : String
  pub password : String
  pub hash : String
  pub search : String
  pub protocol : String
  pub hostname : String
  pub origin : String

-- The refinement of `url`.
abbrev pub is_safe_url : Url → Bool
is_safe_url u =
    (is_empty u.username && (is_empty u.password && (is_empty u.hash && is_empty u.search)))
    && (str_eq u.protocol "https:"
        || (str_eq u.protocol "http:"
            && includes ("127.0.0.1" ∷ "[::1]" ∷ "localhost" ∷ []) u.hostname))

pub record Limits : Type 0 where
  pub max_concurrent : ℕ
  pub timeout_ms : ℕ
  pub max_input_bytes : ℕ
  pub max_input_elements : ℕ
  pub max_output_bytes : ℕ
  pub shutdown_ms : ℕ

pub record AuditOptions : Type 0 where
  pub socket_path : Option String
  pub max_pending : ℕ
  pub timeout_ms : ℕ

pub record HttpOptions : Type 0 where
  pub host : String
  pub port : ℕ
  pub resource : String
  pub issuer : String
  pub jwks_url : String
  pub allowed_origins : List String
  pub algorithms : List String
  pub max_token_age_seconds : ℕ

pub record ApiOptions : Type 0 where
  pub url : String
  pub max_bytes : ℕ

pub record Settings : Type 0 where
  pub transport : Transport
  pub workspace : String
  pub allowed_tools : List String
  pub read_only : Bool
  pub audit : AuditOptions
  pub local_scopes : List String
  pub limits : Limits
  pub http_options : Option HttpOptions
  pub api : Option ApiOptions

unfoldable pub limits_of : Json → Option Limits
limits_of v = do
  o ←
      strict
        ("maxConcurrent" ∷ "timeoutMs" ∷ "maxInputBytes" ∷ "maxInputElements" ∷ "maxOutputBytes"
          ∷ "shutdownMs" ∷ [])
        (or_empty v)
  concurrent ← integer 1 256 16 (get "maxConcurrent" o)
  timeout ← integer 10 300000 10000 (get "timeoutMs" o)
  input ← integer 1024 4194304 65536 (get "maxInputBytes" o)
  elements ← integer 1 10000 1024 (get "maxInputElements" o)
  output ← integer 1024 4194304 262144 (get "maxOutputBytes" o)
  shutdown ← integer 10 30000 5000 (get "shutdownMs" o)
  some (record {
    max_concurrent = concurrent;
    timeout_ms = timeout;
    max_input_bytes = input;
    max_input_elements = elements;
    max_output_bytes = output;
    shutdown_ms = shutdown;
  })

abbrev pub starts_slash : List ℕ → Bool
starts_slash [] = false
starts_slash (c ∷ cs) = c == b'/'

abbrev pub is_socket_path : String → Bool
is_socket_path s = starts_slash (codes s) && leb (units (codes s)) 100

unfoldable pub audit_of : Json → Option AuditOptions
audit_of v = do
  o ← strict ("socketPath" ∷ "maxPending" ∷ "timeoutMs" ∷ []) (or_empty v)
  path ← optional (checked_text is_socket_path) (get "socketPath" o)
  pending ← integer 1 1024 64 (get "maxPending" o)
  timeout ← integer 10 5000 1000 (get "timeoutMs" o)
  some (record { socket_path = path; max_pending = pending; timeout_ms = timeout })

abbrev pub host_of : Json → Option String
host_of = one_of ("127.0.0.1" ∷ "::1" ∷ "0.0.0.0" ∷ "::" ∷ []) "127.0.0.1"

module _ (parse_url : String → Option Url) where
  abbrev pub is_url : String → Bool
  is_url s = elim (parse_url s) [ none ↦ false | some u ↦ is_safe_url u ]

  abbrev pub is_origin : String → Bool
  is_origin s = elim (parse_url s) [ none ↦ false | some u ↦ str_eq u.origin s ]

  unfoldable pub http_of : Json → Option HttpOptions
  http_of v = do
    o ←
        strict
          ("host" ∷ "port" ∷ "resource" ∷ "issuer" ∷ "jwksUrl" ∷ "allowedOrigins" ∷ "algorithms"
            ∷ "maxTokenAgeSeconds" ∷ [])
          v
    host ← host_of (get "host" o)
    port ← integer 0 65535 3000 (get "port" o)
    resource ← checked_text is_url (get "resource" o)
    issuer ← checked_text is_url (get "issuer" o)
    jwks ← checked_text is_url (get "jwksUrl" o)
    origins ← text_list is_origin 0 32 [] (get "allowedOrigins" o)
    algorithms ←
        text_list (includes ("RS256" ∷ "ES256" ∷ "EdDSA" ∷ [])) 1 3 ("RS256" ∷ [])
          (get "algorithms" o)
    age ← integer 1 3600 900 (get "maxTokenAgeSeconds" o)
    some (record {
      host = host;
      port = port;
      resource = resource;
      issuer = issuer;
      jwks_url = jwks;
      allowed_origins = origins;
      algorithms = algorithms;
      max_token_age_seconds = age;
    })

  unfoldable pub api_of : Json → Option ApiOptions
  api_of v = do
    o ← strict ("url" ∷ "maxBytes" ∷ []) v
    url ← checked_text is_url (get "url" o)
    bytes ← integer 1 262144 65536 (get "maxBytes" o)
    some (record { url = url; max_bytes = bytes })

  abbrev pub transport_of : Json → Option Transport
  transport_of missing = some stdio
  transport_of (text s) =
      if str_eq s "stdio" then some stdio else if str_eq s "http" then some http else none
  transport_of _ = none

  abbrev pub workspace_of : Json → Option String
  workspace_of missing = some "."
  workspace_of v = checked_text (λ s. not (is_empty s)) v

  unfoldable pub settings_of : Json → Option Settings
  unfolding limits_of audit_of http_of api_of
  settings_of v = do
    o ←
        strict
          ("transport" ∷ "workspace" ∷ "allowedTools" ∷ "readOnly" ∷ "audit" ∷ "localScopes"
            ∷ "limits" ∷ "http" ∷ "api" ∷ [])
          v
    transport ← transport_of (get "transport" o)
    workspace ← workspace_of (get "workspace" o)
    tools ← text_list is_name 0 128 ("documents_read" ∷ "policy_status" ∷ []) (get "allowedTools" o)
    read_only ← flag true (get "readOnly" o)
    audit ← audit_of (get "audit" o)
    scopes ← text_list is_scope 0 128 ("documents:read" ∷ "policy:read" ∷ []) (get "localScopes" o)
    limits ← limits_of (get "limits" o)
    options ← optional http_of (get "http" o)
    api ← optional api_of (get "api" o)
    some (record {
      transport = transport;
      workspace = workspace;
      allowed_tools = tools;
      read_only = read_only;
      audit = audit;
      local_scopes = scopes;
      limits = limits;
      http_options = options;
      api = api;
    })

  abbrev pub resource_of : Option HttpOptions → Option String
  resource_of none = none
  resource_of (some o) = some o.resource

  -- The schema, with what `superRefine` reads.
  unfoldable pub schema_of : Json → Option (RuntimeConfig Settings)
  schema_of v = do
    s ← settings_of v
    some (record {
      transport = s.transport;
      workspace = s.workspace;
      max_pending = s.audit.max_pending;
      max_concurrent = s.limits.max_concurrent;
      http_resource = resource_of s.http_options;
      others = s;
    })
