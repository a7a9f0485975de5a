-- ===== src/Execution/Tests.antt =====
-- A run of ExecutionController: two calls at a limit of one, a deadline, and a shutdown.
use secure_mcp.Shared.{ℕ, ◌≤◌, ◌≡◌, refl, true, false, none, some, List, [], ◌∷◌, ◌++◌, All}
use secure_mcp.Errors.{busy, timeout, value, raised, runtime_failure}
use secure_mcp.Execution.{
  Task, Event, timer_fired, work_begun, work_settled, work_ended, run_called, close_called,
  drain_ended, at, accepting, drained, running, run, close, steps, initial, refused,
}
use secure_mcp.Execution.Capacity.{running-steps-le}
use secure_mcp.Execution.Answers.{Coherent, steps-initial-Coherent}

abbrev late : List (Event ℕ)
late = run_called false ∷ at 0 work_begun ∷ at 0 timer_fired ∷ []

abbrev ended : List (Event ℕ)
ended = at 0 (work_ended (value 7)) ∷ at 0 work_settled ∷ []

abbrev timed_out : Task ℕ
timed_out = record {
  reason = some timeout;
  signal = some (secure_mcp.Execution.controller timeout);
  started = true;
  work = none;
  answer = some (raised (runtime_failure timeout));
  held = true;
}

late_tests :
    ((steps (initial 1) late).tasks ≡ timed_out ∷ [])
    × (run false (steps (initial 1) late) ≡ refused busy)
    × (running (steps (initial 1) (late ++ ended)) ≡ 0)
    × ((steps (initial 1) (late ++ close_called ∷ drain_ended false ∷ [])).shutdown
        ≡ secure_mcp.Execution.draining)
    × ((steps (initial 1) (late ++ close_called ∷ drain_ended true ∷ [])).shutdown ≡ drained 1)
unfolding steps initial running run
late_tests = (refl, refl, refl, refl, refl)

running-steps-le_example : running (steps (initial 1) late) ≤ 1
running-steps-le_example = running-steps-le 1 late

steps-initial-Coherent_example : All Coherent (steps (initial 1) late).tasks
steps-initial-Coherent_example = steps-initial-Coherent 1 late

still_accepting : (steps (initial 1) late).shutdown ≡ accepting
unfolding steps initial
still_accepting = refl
