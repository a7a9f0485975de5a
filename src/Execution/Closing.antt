-- ===== src/Execution/Closing.antt =====
-- Shutdown of ExecutionController: `close` and `drain`.
use secure_mcp.Shared.{ℕ, ◌≤◌, ◌≡◌, ◌≢◌, ◌↔◌, Bool, true, none, List, [], ◌∷◌, map, arith, All}
use secure_mcp.Errors.{shutting_down}
use secure_mcp.Execution.{
  Task, Controller, Event, run_called, close_called, drain_ended, at, accepting, running, run,
  close, end_drain, step, steps, initial, refused, shut,
}
use secure_mcp.Execution.Tasks.{held_count-map-shut, held_count-modify_at-le}
use secure_mcp.Execution.Answers.{Coherent, steps-initial-Coherent}

module _ {A : Type 0} where
  -- The flag and the shutdown promise are set together.
  abbrev Tied : Controller A → Type 0
  Tied c = (c.closing ≡ true) ↔ (c.shutdown ≢ accepting)

  step-Tied : (c : Controller A) (e : Event A) → Tied c → Tied (step c e)
  unfolding step run close end_drain
  step-Tied c (run_called aborted) h = ground arith
  step-Tied c close_called h = ground arith
  step-Tied c (drain_ended g) h = ground arith
  step-Tied c (at i e) h = h

  steps-Tied : (c : Controller A) (es : List (Event A)) → Tied c → Tied (steps c es)
  unfolding steps
  steps-Tied c [] h = h
  steps-Tied c (e ∷ es) h = steps-Tied (step c e) es (step-Tied c e h)

  -- A closing controller stays so, and takes no new slot.
  step_closing :
      (c : Controller A) (e : Event A)
      → Tied c
      → c.closing ≡ true
      → ((step c e).closing ≡ true) × (running (step c e) ≤ running c)
  unfolding step run close end_drain running
  step_closing c (run_called aborted) t h = ground arith
  step_closing c close_called t h = ground arith
  step_closing c (drain_ended g) t h = ground arith
  step_closing c (at i e) t h = (h, held_count-modify_at-le e i c.tasks)

  steps_closing :
      (c : Controller A) (es : List (Event A))
      → Tied c
      → c.closing ≡ true
      → ((steps c es).closing ≡ true) × (running (steps c es) ≤ running c)
  unfolding steps
  steps_closing c [] t h = (h, omega arith)
  steps_closing c (e ∷ es) t h =
      let (closed, fewer) = step_closing c e t h in
      let (later, fewest) = steps_closing (step c e) es (step-Tied c e t) closed in
      (later, omega arith)

  close_closing :
      (c : Controller A) → Tied c → ((close c).closing ≡ true) × (running (close c) ≡ running c)
  unfolding close running
  close_closing c t = ground (arith, held_count-map-shut c.tasks)

  -- Once `close` has been called, whenever that is, every later `run` is refused with
  -- `shutting_down`, and the number of slots in use never rises above its value at the call.
  pub close_final :
      (n : ℕ) (es fs : List (Event A)) (aborted : Bool)
      → let c = steps (initial n) es in
        (run aborted (steps (close c) fs) ≡ refused shutting_down)
        × (running (steps (close c) fs) ≤ running c)
  unfolding close step
  close_final n es fs aborted =
      let c = steps (initial n) es in
      let t : Tied c = steps-Tied (initial n) es (unfold initial in ground arith) in
      let (closed, same) = close_closing c t in
      let (later, fewer) = steps_closing (close c) fs (step-Tied c close_called t) closed in
      (unfold run in rw later, omega arith)

  shut_answers : (t : Task A) → Coherent t → (shut t).held ≡ true → (shut t).answer ≢ none
  unfolding shut
  shut_answers t h held = ground arith

  All-shut_answers :
      (ts : List (Task A))
      → All Coherent ts
      → All (λ t. t.held ≡ true → t.answer ≢ none) (map shut ts)
  All-shut_answers [] h = tt
  All-shut_answers (t ∷ ts) (p, h) = (shut_answers t p, All-shut_answers ts h)

  close_accepting :
      (c : Controller A)
      → All Coherent c.tasks
      → c.shutdown ≡ accepting
      → All (λ t. t.held ≡ true → t.answer ≢ none) (close c).tasks
  unfolding close
  close_accepting c h e = ground (arith, All-shut_answers c.tasks h)

  close-close : (c : Controller A) → close (close c) ≡ close c
  unfolding close
  close-close c = ground arith

  -- `close` leaves no caller of a running operation waiting: right after the first call every task
  -- that still holds a slot has been answered. A second call changes nothing.
  close_answers :
      (n : ℕ) (es : List (Event A))
      → (steps (initial n) es).shutdown ≡ accepting
      → let c = steps (initial n) es in
        All (λ t. t.held ≡ true → t.answer ≢ none) (close c).tasks × (close (close c) ≡ close c)
  close_answers n es e = (
    close_accepting (steps (initial n) es) (steps-initial-Coherent n es) e,
    close-close (steps (initial n) es),
  )
