-- ===== src/Http/Admission.antt =====
-- src/http.ts: the counts of `serveHttp` over time. Every request that reaches the authentication has a
-- stage; `authenticating` and `requests` are the server's own variables. Whether the audit is healthy
-- is read anew at each event.
pub mod Bounds
pub mod Closing
use secure_mcp.Shared.{
  ℕ, ◌+◌, ◌-◌, ◌*◌, ◌/◌, min, Bool, true, false, not, Option, none, some, List, [], ◌∷◌, ◌++◌, leb,
  if◌then◌else◌, get_elem?, modify_at,
}
use secure_mcp.Http.Routing.{
  Reason, bad_target, host_denied, origin_denied, unauthorized, authentication_busy, busy,
  not_found, shutting_down, audit_unavailable, Settings, Request, Decision, rejected, authenticate,
  route, health, metadata, preflight,
}

-- `Math.min(Number.MAX_SAFE_INTEGER, n + 1)`
abbrev pub bumped : ℕ → ℕ
bumped n = min 9007199254740991 (n + 1)

pub record Counters : Type 0 where
  pub bad_targets : ℕ
  pub hosts_denied : ℕ
  pub origins_denied : ℕ
  pub unauthorizeds : ℕ
  pub authentications_busy : ℕ
  pub busys : ℕ
  pub not_founds : ℕ
  pub shutting_downs : ℕ
  pub audits_unavailable : ℕ

unfoldable pub count : Reason → Counters → Counters
count bad_target c = record c { bad_targets = bumped c.bad_targets }
count host_denied c = record c { hosts_denied = bumped c.hosts_denied }
count origin_denied c = record c { origins_denied = bumped c.origins_denied }
count unauthorized c = record c { unauthorizeds = bumped c.unauthorizeds }
count authentication_busy c = record c { authentications_busy = bumped c.authentications_busy }
count busy c = record c { busys = bumped c.busys }
count not_found c = record c { not_founds = bumped c.not_founds }
count shutting_down c = record c { shutting_downs = bumped c.shutting_downs }
count audit_unavailable c = record c { audits_unavailable = bumped c.audits_unavailable }

pub data Stage : Type 0 where
  verifying admitted ended : Stage

pub record Server : Type 0 where
  pub settings : Settings
  pub max_pending : ℕ
  pub closing : Bool
  pub authenticating : ℕ
  pub requests : ℕ
  pub counters : Counters
  pub stages : List Stage

-- `Math.min(maxConcurrent * 2, Math.floor(maxPending / 3))`
abbrev pub request_capacity : Server → ℕ
request_capacity s = min (s.settings.max_concurrent * 2) (s.max_pending / 3)

abbrev pub is_verifying : Stage → Bool
is_verifying verifying = true
is_verifying _ = false

abbrev pub is_admitted : Stage → Bool
is_admitted admitted = true
is_admitted _ = false

abbrev pub reject : Reason → Server → Server
reject reason s = record s { counters = count reason s.counters }

abbrev pub on_decision : Decision → Server → Server
on_decision (rejected reason status) s = reject reason s
on_decision (authenticate path token) s = record s {
  authenticating = s.authenticating + 1;
  stages = s.stages ++ verifying ∷ [];
}
on_decision (health status text) s = s
on_decision metadata s = s
on_decision preflight s = s

-- The request handler up to the authentication.
unfoldable pub arrive : Bool → Request → Server → Server
arrive healthy request s =
    on_decision (route s.settings s.closing healthy s.authenticating request) s

-- The refusal of a verified request: `none` admits it.
abbrev pub refusal : Bool → Server → Option Reason
refusal healthy s =
    if s.closing
    then some shutting_down
    else if not healthy
    then some audit_unavailable
    else if leb (request_capacity s) s.requests
    then some busy
    else none

-- How the verification of a token ends, and whether the response is destroyed by then.
pub record Verified : Type 0 where
  pub valid : Bool
  pub destroyed : Bool

abbrev pub set_stage : ℕ → Stage → Server → Server
set_stage i stage s = record s { stages = modify_at (λ _. stage) i s.stages }

-- After `await verify(…)`, once `finally` has lowered `authenticating`.
unfoldable pub after_verify : Bool → Verified → ℕ → Server → Server
after_verify healthy v i s =
    if not v.valid
    then (if v.destroyed then set_stage i ended s else reject unauthorized (set_stage i ended s))
    else if v.destroyed
    then set_stage i ended s
    else elim (refusal healthy s) [
      | some reason ↦ reject reason (set_stage i ended s)
      | none ↦ set_stage i admitted (record s { requests = s.requests + 1 })
    ]

abbrev pub verify_stage : Bool → Verified → ℕ → Server → Option Stage → Server
verify_stage healthy v i s (some verifying) =
    after_verify healthy v i (record s { authenticating = s.authenticating - 1 })
verify_stage healthy v i s _ = s

unfoldable pub verify_ended : Bool → Verified → ℕ → Server → Server
unfolding after_verify
verify_ended healthy v i s = verify_stage healthy v i s (get_elem? s.stages i)

abbrev pub settle_stage : ℕ → Server → Option Stage → Server
settle_stage i s (some admitted) = set_stage i ended (record s { requests = s.requests - 1 })
settle_stage i s _ = s

-- The `finally` of `terminal`: the connection has closed, the handler and its audit writes have
-- settled, and the terminal record has been tried.
unfoldable pub terminal_settled : ℕ → Server → Server
terminal_settled i s = settle_stage i s (get_elem? s.stages i)

pub data Event : Type 0 where
  arrived : Bool → Request → Event
  verified : Bool → Verified → ℕ → Event
  settled : ℕ → Event
  close_called : Event

unfoldable pub step : Server → Event → Server
unfolding arrive verify_ended terminal_settled
step s (arrived healthy request) = arrive healthy request s
step s (verified healthy v i) = verify_ended healthy v i s
step s (settled i) = terminal_settled i s
step s close_called = record s { closing = true }

unfoldable pub steps : Server → List Event → Server
unfolding step
steps s [] = s
steps s (e ∷ es) = steps (step s e) es

abbrev pub no_counts : Counters
no_counts = record {
  bad_targets = 0;
  hosts_denied = 0;
  origins_denied = 0;
  unauthorizeds = 0;
  authentications_busy = 0;
  busys = 0;
  not_founds = 0;
  shutting_downs = 0;
  audits_unavailable = 0;
}

unfoldable pub initial : Settings → ℕ → Server
initial settings max_pending = record {
  settings = settings;
  max_pending = max_pending;
  closing = false;
  authenticating = 0;
  requests = 0;
  counters = no_counts;
  stages = [];
}
