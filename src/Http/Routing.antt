-- ===== src/Http/Routing.antt =====
-- src/http.ts: what the server does with a request before it authenticates. Checking the host header is
-- the SDK's, a parameter.
pub mod Ladder
use secure_mcp.Shared.{
  ℕ, String, Bool, true, false, not, ◌&&◌, ◌||◌, Option, none, some, List, [], str_eq, leb,
  if◌then◌else◌, codes, includes,
}
use secure_mcp.Http.Target.{request_path, bearer_token, same}

-- The reasons that are counted.
pub data Reason : Type 0 where
  bad_target host_denied origin_denied unauthorized authentication_busy : Reason
  busy not_found shutting_down audit_unavailable : Reason

pub record Settings : Type 0 where
  pub origin : List ℕ
  pub hostname : String
  pub allowed_origins : List String
  pub max_concurrent : ℕ
  -- `new URL(target, origin)`, and `validateHostHeader(host, [hostname]).ok`
  pub parse_url : List ℕ → Option (List ℕ × List ℕ)
  pub valid_host : Option String → String → Bool

pub record Request : Type 0 where
  pub url : Option (List ℕ)
  pub method : Option String
  pub host : Option String
  pub origin : Option String
  pub authorization : Option (List ℕ)

pub data Decision : Type 0 where
  rejected : Reason → ℕ → Decision
  health : ℕ → String → Decision
  metadata preflight : Decision
  authenticate : List ℕ → List ℕ → Decision

abbrev pub metadata_path : List ℕ
metadata_path = codes "/.well-known/oauth-protected-resource/mcp"

abbrev pub has_method : String → Request → Bool
has_method name request = elim request.method [ none ↦ false | some m ↦ str_eq m name ]

abbrev pub is_some : Option String → Bool
is_some none = false
is_some (some _) = true

abbrev pub origin_allowed : Settings → Request → Bool
origin_allowed settings request = elim request.origin [
  | none ↦ true
  | some o ↦ includes settings.allowed_origins o
]

abbrev pub is_protected : List ℕ → Bool
is_protected path = same path (codes "/mcp") || same path (codes "/metrics")

-- `match?.[1]`
abbrev pub token_of : Request → Option (List ℕ)
token_of request = elim request.authorization [ none ↦ none | some h ↦ bearer_token h ]

-- From the match of the `authorization` header on.
unfoldable pub admit_token : Settings → ℕ → List ℕ → Option (List ℕ) → Decision
admit_token settings authenticating path none = rejected unauthorized 401
admit_token settings authenticating path (some token) =
    if leb settings.max_concurrent authenticating
    then rejected authentication_busy 503
    else authenticate path token

-- From the check of the path on.
unfoldable pub route_path : Settings → Bool → Bool → ℕ → Request → List ℕ → Decision
unfolding admit_token
route_path settings closing healthy authenticating request path =
    if not (settings.valid_host request.host settings.hostname)
    then rejected host_denied 403
    else if not (origin_allowed settings request)
    then rejected origin_denied 403
    else if same path (codes "/health") && has_method "GET" request
    then health (if closing || not healthy then 503 else 200)
        (if closing then "draining" else if healthy then "ok" else "audit_unavailable")
    else if closing
    then rejected shutting_down 503
    else if (same path metadata_path || same path (codes "/.well-known/oauth-protected-resource"))
        && has_method "GET" request
    then metadata
    else if has_method "OPTIONS" request && (is_some request.origin && same path (codes "/mcp"))
    then preflight
    else if not (is_protected path)
    then rejected not_found 404
    else admit_token settings authenticating path (token_of request)

abbrev pub target_of : Request → List ℕ
target_of request = elim request.url [ none ↦ [] | some url ↦ url ]

-- The handler of a request up to the authentication, with the server's flag `closing` and its count
-- `authenticating`.
unfoldable pub route : Settings → Bool → Bool → ℕ → Request → Decision
unfolding route_path
route settings closing healthy authenticating request =
    elim (request_path settings.parse_url (target_of request) settings.origin) [
      | none ↦ rejected bad_target 400
      | some path ↦ route_path settings closing healthy authenticating request path
    ]
