-- ===== src/Config/Tests.antt =====
-- A configuration for HTTP with the least audit capacity, and the law at it.
use secure_mcp.Shared.{ℕ, String, ◌≡◌, refl, Option, none, some, str_eq, if◌then◌else◌}
use secure_mcp.Config.{RuntimeConfig, http, parse_config}

abbrev least : RuntimeConfig Unit
least = record {
  transport = http;
  workspace = ".";
  max_pending = 3;
  max_concurrent = 1;
  http_resource = some "https://a.test/mcp";
  others = tt;
}

-- The path name of the one resource.
abbrev pathname : String → Option String
pathname resource = if str_eq resource "https://a.test/mcp" then some "/mcp" else some "/"

-- A schema that reads the number of pending records.
abbrev schema : ℕ → Option (RuntimeConfig Unit)
schema n = some (record least { max_pending = n })

parses :
    (parse_config schema pathname (λ w. w) 3 ≡ some least)
    × (parse_config schema pathname (λ w. w) 2 ≡ none)
    × (parse_config {V = ℕ} (λ _. some (record least { http_resource = none })) pathname (λ w. w) 0
        ≡ none)
unfolding parse_config
parses = (refl, refl, refl)
