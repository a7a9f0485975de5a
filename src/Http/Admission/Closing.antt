-- ===== src/Http/Admission/Closing.antt =====
-- `close` of the HTTP server: the flag `closing` lets nothing new in.
use secure_mcp.Shared.{ℕ, ◌≤◌, ◌≡◌, refl, ◌≢◌, true, List, [], ◌∷◌, arith}
use secure_mcp.Http.Routing.{Decision, rejected, authenticate, health, metadata, preflight, route}
use secure_mcp.Http.Routing.Ladder.{Admissible, route_iff}
use secure_mcp.Http.Admission.{
  Server, arrive, on_decision, after_verify, verify_ended, terminal_settled, Event, arrived,
  verified, settled, close_called, step, steps,
}

-- A server that is closing, and has let nothing in since.
record Drains (s u : Server) : Type 0 where
  stays : u.closing ≡ true
  requests_fall : u.requests ≤ s.requests
  authenticating_falls : u.authenticating ≤ s.authenticating

on_decision-Drains :
    (s : Server) (d : Decision)
    → s.closing ≡ true
    → ((path token : List ℕ) → d ≢ authenticate path token)
    → Drains s (on_decision d s)
on_decision-Drains s (rejected reason status) e h = record {
  stays = e;
  requests_fall = omega arith;
  authenticating_falls = omega arith;
}
on_decision-Drains s (authenticate path token) e h = absurd (h path token refl)
on_decision-Drains s (health status text) e h = record {
  stays = e;
  requests_fall = omega arith;
  authenticating_falls = omega arith;
}
on_decision-Drains s metadata e h = record {
  stays = e;
  requests_fall = omega arith;
  authenticating_falls = omega arith;
}
on_decision-Drains s preflight e h = record {
  stays = e;
  requests_fall = omega arith;
  authenticating_falls = omega arith;
}

step-Drains : (s : Server) (e : Event) → s.closing ≡ true → Drains s (step s e)
unfolding step arrive verify_ended terminal_settled after_verify
step-Drains s (arrived healthy request) e =
    on_decision-Drains s (route s.settings s.closing healthy s.authenticating request) e
      (λ path token h. absurd (cc (admissible path token h).serving))
  where
    admissible :
        (path token : List ℕ)
        → route s.settings s.closing healthy s.authenticating request ≡ authenticate path token
        → Admissible s.settings s.closing s.authenticating request path token
    admissible path token =
        (route_iff s.settings s.closing healthy s.authenticating request path token).0
step-Drains s (verified healthy v i) e = record {
  stays = ground arith;
  requests_fall = ground arith;
  authenticating_falls = ground arith;
}
step-Drains s (settled i) e = record {
  stays = ground arith;
  requests_fall = ground arith;
  authenticating_falls = ground arith;
}
step-Drains s close_called e = record {
  stays = refl;
  requests_fall = omega arith;
  authenticating_falls = omega arith;
}

steps-Drains : (s : Server) (es : List Event) → s.closing ≡ true → Drains s (steps s es)
unfolding steps
steps-Drains s [] h = record {
  stays = h;
  requests_fall = omega arith;
  authenticating_falls = omega arith;
}
steps-Drains s (e ∷ es) h =
    let a = step-Drains s e h in
    let b = steps-Drains (step s e) es a.stays in
    record {
      stays = b.stays;
      requests_fall = omega (arith, a.requests_fall, b.requests_fall);
      authenticating_falls = omega (arith, a.authenticating_falls, b.authenticating_falls);
    }

-- Once the server is asked to close, whatever its state, it stays closing, and neither the number of
-- admitted requests nor that of tokens in verification is ever again above its value at that time.
pub close_called-falls :
    (s : Server) (es : List Event)
    → let u = steps (step s close_called) es in
      (u.requests ≤ s.requests) × (u.authenticating ≤ s.authenticating) × (u.closing ≡ true)
unfolding step
close_called-falls s es =
    let d = steps-Drains (step s close_called) es refl in
    (d.requests_fall, d.authenticating_falls, d.stays)
