-- ===== src/Http/Tests.antt =====
-- A server at https://a.test, requests to it, and the laws at these.
use secure_mcp.Shared.{
  ℕ, ◌*◌, ◌≤◌, ◌≡◌, refl, ◌↔◌, true, false, Option, none, some, List, [], ◌∷◌, str_eq, codes, tally,
}
use secure_mcp.Errors.{value}
use secure_mcp.Http.Target.{request_path, bearer_token}
use secure_mcp.Http.Routing.{
  Settings, Request, rejected, not_found, authentication_busy, authenticate, health, route,
}
use secure_mcp.Http.Routing.Ladder.{Admissible, route_iff}
use secure_mcp.Http.Admission.{
  count, Event, arrived, verified, settled, steps, initial, is_verifying, is_admitted,
}
use secure_mcp.Http.Admission.Bounds.{steps-initial-bounds}
use secure_mcp.Http.Adapter.{
  mcp, metrics, Fetch, fetch, respond, metrics_text, batch_refused, failed, is_batch,
}
use secure_mcp.Http.Adapter.Guards.{Justified, fetch-Justified}

abbrev origin : List ℕ
origin = codes "https://a.test"

-- A parser for targets that need no normalization.
abbrev parse_url : List ℕ → Option (List ℕ × List ℕ)
parse_url target = some (origin, target)

abbrev settings : Settings
settings = record {
  origin = origin;
  hostname = "a.test";
  allowed_origins = "https://b.test" ∷ [];
  max_concurrent = 1;
  parse_url = parse_url;
  valid_host = λ host _. elim host [ none ↦ false | some h ↦ str_eq h "a.test" ];
}

abbrev call : Request
call = record {
  url = some (codes "/mcp");
  method = some "POST";
  host = some "a.test";
  origin = none;
  authorization = some (codes "Bearer abc");
}

targets :
    (request_path parse_url (codes "/mcp") origin ≡ some (codes "/mcp"))
    × (request_path parse_url (codes "//mcp") origin ≡ none)
    × (request_path parse_url (codes "/m%2") origin ≡ none)
    × (request_path parse_url (codes "/m p") origin ≡ none)
    × (bearer_token (codes "bEarer a-b") ≡ some (codes "a-b"))
    × (bearer_token (codes "Bearer a b") ≡ none)
unfolding request_path bearer_token
targets = (refl, refl, refl, refl, refl, refl)

routes :
    (route settings false true 0 call ≡ authenticate (codes "/mcp") (codes "abc"))
    × (route settings false true 1 call ≡ rejected authentication_busy 503)
    × (route settings false true 0 (record call { url = some (codes "/x") })
        ≡ rejected not_found 404)
    × (route settings true true 0
          (record call { url = some (codes "/health"); method = some "GET" })
        ≡ health 503 "draining")
unfolding route request_path bearer_token
routes = (refl, refl, refl, refl)

route_iff_example :
    (route settings false true 0 call ≡ authenticate (codes "/mcp") (codes "abc"))
    ↔ Admissible settings false 0 call (codes "/mcp") (codes "abc")
route_iff_example = route_iff settings false true 0 call (codes "/mcp") (codes "abc")

abbrev traffic : List Event
traffic =
    arrived true call
    ∷ arrived true call
    ∷ verified true (record { valid = true; destroyed = false }) 0
    ∷ arrived true call
    ∷ verified true (record { valid = true; destroyed = false }) 1
    ∷ settled 0
    ∷ []

traffic_tests :
    ((steps (initial settings 3) traffic).requests ≡ 0)
    × ((steps (initial settings 3) traffic).counters.busys ≡ 1)
    × ((steps (initial settings 3) traffic).counters.authentications_busy ≡ 1)
unfolding steps initial route request_path bearer_token count
traffic_tests = (refl, refl, refl)

steps-initial-bounds_example :
    let s = steps (initial settings 3) traffic in
    (s.authenticating ≡ tally is_verifying s.stages)
    × (s.requests ≡ tally is_admitted s.stages)
    × (s.authenticating ≤ 1)
    × (s.requests ≤ 2 * 1)
    × (3 * s.requests ≤ 3)
steps-initial-bounds_example = steps-initial-bounds settings 3 traffic

abbrev scrape : Fetch
scrape = record {
  endpoint = metrics;
  scopes = "metrics:read" ∷ [];
  method = "GET";
  body = value [];
  sdk = value 200;
  accepts = λ _. true;
  healthy = true;
}

fetches :
    (fetch scrape ≡ respond 200 metrics_text)
    × (fetch (record scrape { endpoint = mcp; method = "POST"; body = value (codes " [1]") })
        ≡ respond 400 batch_refused)
    × (fetch (record scrape { accepts = λ _. false; healthy = false }) ≡ respond 503 failed)
unfolding fetch is_batch
fetches = (refl, refl, refl)

fetch-Justified_example : Justified scrape (fetch scrape) (fetch scrape).content
fetch-Justified_example = fetch-Justified scrape
