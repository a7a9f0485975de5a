-- ===== src/Execution/Capacity.antt =====
-- The concurrency limit of ExecutionController.
use secure_mcp.Shared.{
  ℕ, ◌+◌, ◌≤◌, ◌<◌, ◌≡◌, refl, ◌∙◌, inl, inr, Bool, true, false, List, [], ◌∷◌, ◌++◌, arith, leb,
  Bool-cases,
}
use secure_mcp.Errors.{busy, cancelled, shutting_down}
use secure_mcp.Execution.{
  Admission, Controller, Event, run_called, close_called, drain_ended, at, running, run, close,
  end_drain, step, steps, initial, refused, admitted, new_task, after,
}
use secure_mcp.Execution.Tasks.{held_count-append, held_count-map-shut, held_count-modify_at-le}

module _ {A : Type 0} where
  abbrev Within : Controller A → Type 0
  Within c = running c ≤ c.max_concurrent

  after-run-Within :
      (aborted : Bool) (c : Controller A) → Within c → Within (after c (run aborted c))
  unfolding run
  after-run-Within aborted c h = ground (arith, held_count-append c.tasks (new_task ∷ []))

  close-Within : (c : Controller A) → Within c → Within (close c)
  unfolding close running
  close-Within c h = ground (arith, held_count-map-shut c.tasks)

  end_drain-Within : (g : Bool) (c : Controller A) → Within c → Within (end_drain g c)
  unfolding end_drain
  end_drain-Within g c h = ground arith

  step-Within : (c : Controller A) (e : Event A) → Within c → Within (step c e)
  unfolding step
  step-Within c (run_called aborted) h = after-run-Within aborted c h
  step-Within c close_called h = close-Within c h
  step-Within c (drain_ended g) h = end_drain-Within g c h
  step-Within c (at i e) h = unfold running in omega (arith, held_count-modify_at-le e i c.tasks)

  steps-Within : (c : Controller A) (es : List (Event A)) → Within c → Within (steps c es)
  unfolding steps
  steps-Within c [] h = h
  steps-Within c (e ∷ es) h = steps-Within (step c e) es (step-Within c e h)

  max_concurrent-step :
      (c : Controller A) (e : Event A) → (step c e).max_concurrent ≡ c.max_concurrent
  unfolding step
  max_concurrent-step c (run_called aborted) = ground arith
  max_concurrent-step c close_called = ground arith
  max_concurrent-step c (drain_ended g) = ground arith
  max_concurrent-step c (at i e) = refl

  max_concurrent-steps :
      (c : Controller A) (es : List (Event A)) → (steps c es).max_concurrent ≡ c.max_concurrent
  unfolding steps
  max_concurrent-steps c [] = refl
  max_concurrent-steps c (e ∷ es) = max_concurrent-steps (step c e) es ∙ max_concurrent-step c e

  -- Whatever happens to a new controller, it never runs more operations than its limit.
  pub running-steps-le :
      (max_concurrent : ℕ) (es : List (Event A))
      → running (steps (initial max_concurrent) es) ≤ max_concurrent
  unfolding initial running
  running-steps-le n es = omega (
    arith,
    steps-Within (initial n) es (omega arith),
    max_concurrent-steps (initial {A = A} n) es,
  )

  -- Why `run` decides as it does.
  pub data Decided (aborted : Bool) (c : Controller A) : Admission A → Type 0 where
    is_closing : c.closing ≡ true → Decided aborted c (refused shutting_down)
    is_cancelled : c.closing ≡ false → aborted ≡ true → Decided aborted c (refused cancelled)
    is_full :
        c.closing ≡ false
        → aborted ≡ false
        → c.max_concurrent ≤ running c
        → Decided aborted c (refused busy)
    has_room :
        (c' : Controller A)
        → c.closing ≡ false
        → aborted ≡ false
        → running c < c.max_concurrent
        → running c' ≡ running c + 1
        → c'.tasks ≡ c.tasks ++ new_task ∷ []
        → Decided aborted c (admitted c')

  -- `run` refuses in this order: a closing controller, an aborted caller, a full controller. If
  -- none of these holds it takes exactly one slot, and starts a new task behind the others.
  pub run_cases : (aborted : Bool) (c : Controller A) → Decided aborted c (run aborted c)
  unfolding run
  run_cases true c = elim (Bool-cases c.closing) [
    | inl closed ↦ simp closed (is_closing closed)
    | inr opened ↦ simp opened (is_cancelled opened refl)
  ]
  run_cases false c = elim (Bool-cases c.closing) [
    | inl closed ↦ simp closed (is_closing closed)
    | inr opened ↦ elim (Bool-cases (leb c.max_concurrent (running c))) [
      | inl full ↦ simp (opened, full) (is_full opened refl (ground arith))
      | inr room ↦
          simp (opened, room)
            (has_room _ opened refl (ground arith)
              (unfold running in omega (arith, held_count-append c.tasks (new_task ∷ []))) refl)
    ]
  ]
