-- ===== src/Http/Admission/Bounds.antt =====
-- The bounds of the counts of `serveHttp`, and what they count.
use secure_mcp.Shared.{
  ℕ, zero, suc, ◌+◌, ◌-◌, ◌*◌, ◌/◌, ◌≤◌, ◌<◌, ◌≡◌, refl, ap, ◌∙◌, Bool, Option, none, some, List,
  [], ◌∷◌, arith, if◌then◌else◌, get_elem?, modify_at, tally, tally-append,
}
use secure_mcp.Http.Routing.{Decision, rejected, authenticate, health, metadata, preflight}
use secure_mcp.Http.Routing.Ladder.{route_iff}
use secure_mcp.Http.Admission.{
  Settings, initial, Stage, verifying, admitted, ended, Server, request_capacity, is_verifying,
  is_admitted, arrive, on_decision, after_verify, verify_ended, verify_stage, settle_stage,
  terminal_settled, Verified, Event, arrived, verified, settled, close_called, step, steps,
}

tally-modify_at :
    (p : Stage → Bool) (y x : Stage) (i : ℕ) (xs : List Stage)
    → get_elem? xs i ≡ some x
    → tally p (modify_at (λ _. y) i xs) + (if p x then 1 else 0)
      ≡ tally p xs + (if p y then 1 else 0)
tally-modify_at p y x i [] h = absurd (cc)
tally-modify_at p y x zero (z ∷ xs) h = ground (arith, h)
tally-modify_at p y x (suc i) (z ∷ xs) h = omega (arith, tally-modify_at p y x i xs h)

-- The variables count the requests at their stages, and stay within their limits.
record Inv (s : Server) : Type 0 where
  authenticating_counts : s.authenticating ≡ tally is_verifying s.stages
  requests_count : s.requests ≡ tally is_admitted s.stages
  authenticating_bounded : s.authenticating ≤ s.settings.max_concurrent
  requests_bounded : s.requests ≤ request_capacity s

on_decision-Inv :
    (s : Server) (d : Decision)
    → Inv s
    → ((path token : List ℕ)
        → d ≡ authenticate path token
        → s.authenticating < s.settings.max_concurrent)
    → Inv (on_decision d s)
on_decision-Inv s (rejected reason status) i h = record {
  authenticating_counts = i.authenticating_counts;
  requests_count = i.requests_count;
  authenticating_bounded = i.authenticating_bounded;
  requests_bounded = i.requests_bounded;
}
on_decision-Inv s (authenticate path token) i h = record {
  authenticating_counts =
      omega (arith, tally-append is_verifying s.stages (verifying ∷ []), i.authenticating_counts);
  requests_count =
      omega (arith, tally-append is_admitted s.stages (verifying ∷ []), i.requests_count);
  authenticating_bounded = omega (arith, h path token refl);
  requests_bounded = i.requests_bounded;
}
on_decision-Inv s (health status text) i h = i
on_decision-Inv s metadata i h = i
on_decision-Inv s preflight i h = i

after_verify-Inv :
    (healthy : Bool) (v : Verified) (i : ℕ) (s : Server)
    → get_elem? s.stages i ≡ some verifying
    → Inv s
    → Inv (after_verify healthy v i (record s { authenticating = s.authenticating - 1 }))
unfolding after_verify
after_verify-Inv healthy v i s e inv =
    let a = tally-modify_at is_verifying ended verifying i s.stages e in
    let b = tally-modify_at is_verifying admitted verifying i s.stages e in
    let c = tally-modify_at is_admitted ended verifying i s.stages e in
    let d = tally-modify_at is_admitted admitted verifying i s.stages e in
    record {
      authenticating_counts = ground (arith, a, b, inv.authenticating_counts);
      requests_count = ground (arith, c, d, inv.requests_count);
      authenticating_bounded = ground (arith, inv.authenticating_bounded);
      requests_bounded = ground (arith, inv.requests_bounded);
    }

settle_stage-Inv :
    (i : ℕ) (s : Server) (o : Option Stage)
    → get_elem? s.stages i ≡ o
    → Inv s
    → Inv (settle_stage i s o)
settle_stage-Inv i s (some admitted) e inv =
    let a = tally-modify_at is_verifying ended admitted i s.stages e in
    let c = tally-modify_at is_admitted ended admitted i s.stages e in
    record {
      authenticating_counts = omega (arith, a, inv.authenticating_counts);
      requests_count = omega (arith, c, inv.requests_count);
      authenticating_bounded = inv.authenticating_bounded;
      requests_bounded = omega (arith, inv.requests_bounded);
    }
settle_stage-Inv i s (some verifying) e inv = inv
settle_stage-Inv i s (some ended) e inv = inv
settle_stage-Inv i s none e inv = inv

verify_stage-Inv :
    (healthy : Bool) (v : Verified) (i : ℕ) (s : Server) (o : Option Stage)
    → get_elem? s.stages i ≡ o
    → Inv s
    → Inv (verify_stage healthy v i s o)
verify_stage-Inv healthy v i s (some verifying) e inv = after_verify-Inv healthy v i s e inv
verify_stage-Inv healthy v i s (some admitted) e inv = inv
verify_stage-Inv healthy v i s (some ended) e inv = inv
verify_stage-Inv healthy v i s none e inv = inv

step-Inv : (s : Server) (e : Event) → Inv s → Inv (step s e)
unfolding step arrive verify_ended terminal_settled
step-Inv s (arrived healthy request) inv = on_decision-Inv s _ inv (λ path token h.
    ((route_iff s.settings s.closing healthy s.authenticating request path token).0 h).room)
step-Inv s (verified healthy v i) inv = verify_stage-Inv healthy v i s _ refl inv
step-Inv s (settled i) inv = settle_stage-Inv i s _ refl inv
step-Inv s close_called inv = record {
  authenticating_counts = inv.authenticating_counts;
  requests_count = inv.requests_count;
  authenticating_bounded = inv.authenticating_bounded;
  requests_bounded = inv.requests_bounded;
}

steps-Inv : (s : Server) (es : List Event) → Inv s → Inv (steps s es)
unfolding steps
steps-Inv s [] inv = inv
steps-Inv s (e ∷ es) inv = steps-Inv (step s e) es (step-Inv s e inv)

on_decision-fixed :
    (d : Decision) (s : Server)
    → ((on_decision d s).settings ≡ s.settings) × ((on_decision d s).max_pending ≡ s.max_pending)
on_decision-fixed (rejected reason status) s = (refl, refl)
on_decision-fixed (authenticate path token) s = (refl, refl)
on_decision-fixed (health status text) s = (refl, refl)
on_decision-fixed metadata s = (refl, refl)
on_decision-fixed preflight s = (refl, refl)

step-fixed :
    (s : Server) (e : Event)
    → ((step s e).settings ≡ s.settings) × ((step s e).max_pending ≡ s.max_pending)
unfolding step arrive verify_ended terminal_settled after_verify
step-fixed s (arrived healthy request) = on_decision-fixed _ s
step-fixed s (verified healthy v i) = (ground arith, ground arith)
step-fixed s (settled i) = (ground arith, ground arith)
step-fixed s close_called = (refl, refl)

steps-fixed :
    (s : Server) (es : List Event)
    → ((steps s es).settings ≡ s.settings) × ((steps s es).max_pending ≡ s.max_pending)
unfolding steps
steps-fixed s [] = (refl, refl)
steps-fixed s (e ∷ es) =
    let (a, b) = step-fixed s e in let (c, d) = steps-fixed (step s e) es in (c ∙ a, d ∙ b)

third_le : (n : ℕ) → 3 * (n / 3) ≤ n
third_le n = omega arith

-- Whatever arrives and in whatever order it ends: `authenticating` is the number of requests whose
-- token is being verified, and `requests` the number of those admitted and not yet settled; at most
-- `max_concurrent` tokens are verified at a time, at most `2 * max_concurrent` requests are admitted,
-- and the audit has room for three records of each of these.
pub steps-initial-bounds :
    (settings : Settings) (max_pending : ℕ) (es : List Event)
    → let s = steps (initial settings max_pending) es in
      (s.authenticating ≡ tally is_verifying s.stages)
      × (s.requests ≡ tally is_admitted s.stages)
      × (s.authenticating ≤ settings.max_concurrent)
      × (s.requests ≤ 2 * settings.max_concurrent)
      × (3 * s.requests ≤ max_pending)
unfolding initial
steps-initial-bounds settings m es =
    let s = steps (initial settings m) es in
    let inv : Inv s = steps-Inv (initial settings m) es (record {
      authenticating_counts = refl;
      requests_count = refl;
      authenticating_bounded = omega arith;
      requests_bounded = omega arith;
    }) in
    let (a, b) = steps-fixed (initial settings m) es in
    let c = ap (λ (x : Settings). x.max_concurrent) a in
    (
      inv.authenticating_counts,
      inv.requests_count,
      omega (arith, inv.authenticating_bounded, c),
      omega (arith, inv.requests_bounded, c),
      omega (arith, inv.requests_bounded, b),
    )
