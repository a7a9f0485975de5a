-- ===== src/Config/Schema/Tests.antt =====
-- The least configuration, one for HTTP, and refusals.
use secure_mcp.Shared.{
  ℕ, ◌*◌, ◌/◌, ◌≤◌, min, String, ◌≡◌, refl, true, false, Option, none, some, [], ◌∷◌,
}
use secure_mcp.Config.{issues, parse_config, http, RuntimeConfig, is_none, has_wrong_path}
use secure_mcp.Config.Schema.Allowed.{AreAllowed}
use secure_mcp.Config.Schema.Parsed.{parse_config-AreAllowed}
use secure_mcp.Config.Values.{
  Json, number, text, object, array, item, end, no_field, field, strict, integer, texts, text_list,
  checked_text, is_name,
}
use secure_mcp.Config.Schema.{
  schema_of, Url, Settings, settings_of, limits_of, audit_of, http_of, api_of,
}

-- Every text is read as an https URL.
abbrev parse_url : String → Option Url
parse_url s = some (record {
  username = "";
  password = "";
  hash = "";
  search = "";
  protocol = "https:";
  hostname = "a.test";
  origin = s;
})

abbrev pathname : String → Option String
pathname s = some "/mcp"

abbrev served : Json
served = object (
    field "transport" (text "http") (
      field "http"
        (object (
          field "resource" (text "https://a.test/mcp") (
            field "issuer" (text "https://a.test")
              (field "jwksUrl" (text "https://a.test/keys") no_field))))
        no_field))

abbrev settings : Settings
settings = record {
  transport = http;
  workspace = ".";
  allowed_tools = "documents_read" ∷ "policy_status" ∷ [];
  read_only = true;
  audit = record { socket_path = none; max_pending = 64; timeout_ms = 1000 };
  local_scopes = "documents:read" ∷ "policy:read" ∷ [];
  limits = record {
    max_concurrent = 16;
    timeout_ms = 10000;
    max_input_bytes = 65536;
    max_input_elements = 1024;
    max_output_bytes = 262144;
    shutdown_ms = 5000;
  };
  http_options = some (record {
    host = "127.0.0.1";
    port = 3000;
    resource = "https://a.test/mcp";
    issuer = "https://a.test";
    jwks_url = "https://a.test/keys";
    allowed_origins = [];
    algorithms = "RS256" ∷ [];
    max_token_age_seconds = 900;
  });
  api = none;
}

abbrev config : RuntimeConfig Settings
config = record {
  transport = http;
  workspace = ".";
  max_pending = 64;
  max_concurrent = 16;
  http_resource = some "https://a.test/mcp";
  others = settings;
}

parses : parse_config (schema_of parse_url) pathname (λ w. w) served ≡ some config
unfolding parse_config issues schema_of settings_of limits_of audit_of http_of api_of strict integer
    text_list texts checked_text
parses = refl

parse_config-AreAllowed_example :
    AreAllowed parse_url settings
    × (config.transport ≡ http
        → (is_none config.http_resource ≡ false)
          × (has_wrong_path pathname config.http_resource ≡ false)
          × (1 ≤ min (config.max_concurrent * 2) (config.max_pending / 3)))
parse_config-AreAllowed_example =
    parse_config-AreAllowed parse_url pathname (λ w. w) served config parses

abbrev limited : ℕ → Json
limited n = object (field "limits" (object (field "maxConcurrent" (number n) no_field)) no_field)

abbrev concurrency : Option Settings → ℕ
concurrency none = 0
concurrency (some s) = s.limits.max_concurrent

refusals :
    (concurrency (settings_of parse_url (object no_field)) ≡ 16)
    × (concurrency (settings_of parse_url (limited 256)) ≡ 256)
    × (settings_of parse_url (limited 257) ≡ none)
    × (settings_of parse_url (object (field "other" (number 1) no_field)) ≡ none)
    × (settings_of parse_url (object (field "allowedTools" (array (item (text "No") end)) no_field))
        ≡ none)
unfolding settings_of limits_of audit_of http_of api_of strict integer text_list texts checked_text
    is_name
refusals = (refl, refl, refl, refl, refl)
