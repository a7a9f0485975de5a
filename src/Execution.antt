-- ===== src/Execution.antt =====
-- src/execution.ts: ExecutionController. Every promise that `run` returns is a task; a task whose
-- flag `held` is set is a member of the set `active`. What the event loop may do next is an event.
mod Tasks
pub mod Capacity
pub mod Answers
pub mod Closing
mod Tests
use secure_mcp.Shared.{
  ℕ, ◌+◌, Bool, true, false, ◌||◌, Option, none, some, List, [], ◌∷◌, ◌++◌, map, leb, ◌==◌,
  if◌then◌else◌, modify_at,
}
use secure_mcp.Errors.{
  FailureCode, busy, timeout, cancelled, shutting_down, Thrown, runtime_failure, foreign, Outcome,
  raised,
}

-- Which signal aborted first, the composite signal's reason.
pub data Source : Type 0 where
  caller : Source
  controller : FailureCode → Source

pub record Task (A : Type 0) : Type 0 where
  -- the reason of `controller.signal`, and of the composite signal
  pub reason : Option FailureCode
  pub signal : Option Source
  -- whether the operation has been called, how `work` ended, and what the caller was answered
  pub started : Bool
  pub work : Option (Outcome A)
  pub answer : Option (Outcome A)
  pub held : Bool

pub data Shutdown : Type 0 where
  accepting draining : Shutdown
  drained : ℕ → Shutdown

pub record Controller (A : Type 0) : Type 0 where
  pub max_concurrent : ℕ
  pub tasks : List (Task A)
  pub closing : Bool
  pub shutdown : Shutdown

pub data Admission (A : Type 0) : Type 0 where
  refused : FailureCode → Admission A
  admitted : Controller A → Admission A

-- `onAbort`: the controller's reason, or `cancelled` where it has none.
abbrev pub rejection : Option FailureCode → FailureCode
rejection none = cancelled
rejection (some code) = code

-- What `signal.throwIfAborted()` throws; the caller's own reason is no RuntimeFailure.
abbrev pub thrown_by : Source → Thrown
thrown_by caller = foreign "AbortError"
thrown_by (controller code) = runtime_failure code

module _ {A : Type 0} where
  -- A promise keeps the first result that it is given.
  abbrev pub first : Option (Outcome A) → Outcome A → Option (Outcome A)
  first none o = some o
  first (some o) _ = some o

  abbrev pub new_task : Task A
  new_task = record {
    reason = none;
    signal = none;
    started = false;
    work = none;
    answer = none;
    held = true;
  }

  abbrev pub held_count : List (Task A) → ℕ
  held_count [] = 0
  held_count (t ∷ ts) = (if t.held then 1 else 0) + held_count ts

  -- `get running()`
  unfoldable pub running : Controller A → ℕ
  running c = held_count c.tasks

  -- The synchronous part of `run`.
  unfoldable pub run : Bool → Controller A → Admission A
  unfolding running
  run caller_aborted c =
      if c.closing
      then refused shutting_down
      else if caller_aborted
      then refused cancelled
      else if leb c.max_concurrent (running c)
      then refused busy
      else admitted (record c { tasks = c.tasks ++ new_task ∷ [] })

  -- One of the two sources aborts the composite signal, once; the caller is then answered.
  unfoldable pub abort_signal : Source → Task A → Task A
  abort_signal source t = elim t.signal [
    | some _ ↦ t
    | none ↦ record t {
      signal = some source;
      answer = first t.answer (raised (runtime_failure (rejection t.reason)));
    }
  ]

  -- `controller.abort(new RuntimeFailure(code))`; a second abort changes nothing.
  unfoldable pub abort : FailureCode → Task A → Task A
  unfolding abort_signal
  abort code t = elim t.reason [
    | some _ ↦ t
    | none ↦ abort_signal (controller code) (record t { reason = some code })
  ]

  -- The timer, which `finally` clears.
  unfoldable pub time_out : Task A → Task A
  unfolding abort
  time_out t = if t.held then abort timeout t else t

  unfoldable pub caller_abort : Task A → Task A
  unfolding abort_signal
  caller_abort t = abort_signal caller t

  -- `work` ends, and the race with it.
  abbrev pub end_work : Outcome A → Task A → Task A
  end_work o t = record t { work = some o; answer = first t.answer o }

  -- The first microtask of `work`: the operation is called unless the signal has aborted.
  unfoldable pub begin_work : Task A → Task A
  begin_work t = if t.started then t else elim t.signal [
    | some source ↦ end_work (raised (thrown_by source)) (record t { started = true })
    | none ↦ record t { started = true }
  ]

  -- The operation ends, once.
  unfoldable pub finish_work : Outcome A → Task A → Task A
  finish_work o t = if t.started then elim t.work [ some _ ↦ t | none ↦ end_work o t ] else t

  -- `entry.settled`'s `finally`: the slot is given back, after `work` has ended.
  unfoldable pub settle : Task A → Task A
  settle t = elim t.work [ some _ ↦ record t { held = false } | none ↦ t ]

  unfoldable pub shut : Task A → Task A
  unfolding abort
  shut t = if t.held then abort shutting_down t else t

  -- `close` starts `drain` the first time only.
  unfoldable pub close : Controller A → Controller A
  unfolding shut
  close c = elim c.shutdown [
    | accepting ↦ record c { closing = true; tasks = map shut c.tasks; shutdown = draining }
    | _ ↦ c
  ]

  -- The race of `drain` ends, by the grace timer or by the last settlement.
  unfoldable pub end_drain : Bool → Controller A → Controller A
  unfolding running
  end_drain grace_over c = elim c.shutdown [
    | draining ↦
        if grace_over || running c == 0 then record c { shutdown = drained (running c) } else c
    | _ ↦ c
  ]

pub data TaskEvent (A : Type 0) : Type 0 where
  timer_fired caller_aborted work_begun work_settled : TaskEvent A
  work_ended : Outcome A → TaskEvent A

pub data Event (A : Type 0) : Type 0 where
  run_called : Bool → Event A
  close_called : Event A
  drain_ended : Bool → Event A
  at : ℕ → TaskEvent A → Event A

module _ {A : Type 0} where
  unfoldable pub react : TaskEvent A → Task A → Task A
  unfolding time_out caller_abort begin_work settle finish_work
  react timer_fired = time_out
  react caller_aborted = caller_abort
  react work_begun = begin_work
  react work_settled = settle
  react (work_ended o) = finish_work o

  -- A refused `run` leaves the controller as it was.
  abbrev pub after : Controller A → Admission A → Controller A
  after c (refused code) = c
  after c (admitted c') = c'

  unfoldable pub step : Controller A → Event A → Controller A
  unfolding run close end_drain react
  step c (run_called aborted) = after c (run aborted c)
  step c close_called = close c
  step c (drain_ended grace_over) = end_drain grace_over c
  step c (at i e) = record c { tasks = modify_at (react e) i c.tasks }

  unfoldable pub steps : Controller A → List (Event A) → Controller A
  unfolding step
  steps c [] = c
  steps c (e ∷ es) = steps (step c e) es

  unfoldable pub initial : ℕ → Controller A
  initial max_concurrent = record {
    max_concurrent = max_concurrent;
    tasks = [];
    closing = false;
    shutdown = accepting;
  }
