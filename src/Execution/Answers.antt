-- ===== src/Execution/Answers.antt =====
-- What the callers of `run` are answered.
use secure_mcp.Shared.{
  ℕ, zero, suc, ◌≡◌, refl, ◌≢◌, ◌⊎◌, inl, inr, true, false, Option, none, some, List, [], ◌∷◌, ◌++◌,
  map, arith, Option-cases, get_elem?, All, All-append, modify_at, All-modify_at, subst,
  some-injective,
}
use secure_mcp.Errors.{Outcome}
use secure_mcp.Execution.{
  modify_at, modify_at, modify_at, modify_at, modify_at, modify_at, Task, Controller, Event,
  TaskEvent, timer_fired, caller_aborted, work_begun, work_settled, work_ended, run_called,
  close_called, drain_ended, at, Source, shut, react, step, steps, initial, run, close, end_drain,
  new_task, modify_at,
}
use secure_mcp.Execution.Tasks.{All-map-shut, All-map-shut}

module _ {A : Type 0} where
  -- What ties the parts of a task together.
  pub record Coherent (t : Task A) : Type 0 where
    -- a slot is given back only by work that ended, and ended work has answered the caller
    pub settled : t.held ≡ false → t.work ≢ none
    pub answered : t.work ≢ none → t.answer ≢ none
    -- an abort has answered the caller, a reason has aborted the signal
    pub aborted : t.signal ≢ none → t.answer ≢ none
    pub reasoned : t.reason ≢ none → t.signal ≢ none
    -- work ends only after it has begun
    pub begun : t.work ≢ none → t.started ≡ true

  react-Coherent : (e : TaskEvent A) (t : Task A) → Coherent t → Coherent (react e t)
  unfolding react
  react-Coherent timer_fired t h = ground arith
  react-Coherent caller_aborted t h = ground arith
  react-Coherent work_begun t h = ground arith
  react-Coherent work_settled t h = ground arith
  react-Coherent (work_ended o) t h = ground arith

  shut-Coherent : (t : Task A) → Coherent t → Coherent (shut t)
  unfolding shut
  shut-Coherent t h = ground arith

  new_task-Coherent : Coherent new_task
  new_task-Coherent = ground arith

  step-Coherent :
      (c : Controller A) (e : Event A) → All Coherent c.tasks → All Coherent (step c e).tasks
  unfolding step
  step-Coherent c (run_called aborted) h =
      unfold run in
      ground (arith, All-append Coherent c.tasks (new_task ∷ []) h (new_task-Coherent, tt))
  step-Coherent c close_called h =
      unfold close in ground (arith, All-map-shut Coherent c.tasks shut-Coherent h)
  step-Coherent c (drain_ended g) h = ground arith
  step-Coherent c (at i e) h = All-modify_at Coherent (react e) i c.tasks (react-Coherent e) h

  steps-Coherent :
      (c : Controller A) (es : List (Event A))
      → All Coherent c.tasks
      → All Coherent (steps c es).tasks
  unfolding steps
  steps-Coherent c [] h = h
  steps-Coherent c (e ∷ es) h = steps-Coherent (step c e) es (step-Coherent c e h)

  -- In every reachable state each task is coherent: a slot is given back only after its work ended,
  -- ended or aborted work has answered its caller, and work that ended had begun.
  pub steps-initial-Coherent :
      (n : ℕ) (es : List (Event A)) → All Coherent (steps (initial n) es).tasks
  unfolding initial
  steps-initial-Coherent n es = steps-Coherent (initial n) es tt

  -- How a task may go on: what is settled stays, and a slot is given back by ended work only.
  pub record Later (t u : Task A) : Type 0 where
    pub answer_kept : (o : Outcome A) → t.answer ≡ some o → u.answer ≡ some o
    pub work_kept : (o : Outcome A) → t.work ≡ some o → u.work ≡ some o
    pub signal_kept : (s : Source) → t.signal ≡ some s → u.signal ≡ some s
    pub begun_kept : t.started ≡ true → u.started ≡ true
    pub never_regained : t.held ≡ false → u.held ≡ false
    pub slot_kept : t.held ≡ true → (u.held ≡ true) ⊎ (u.work ≢ none)

  Later-refl : (t : Task A) → Later t t
  Later-refl t = record {
    answer_kept = λ o h. h;
    work_kept = λ o h. h;
    signal_kept = λ o h. h;
    begun_kept = λ h. h;
    never_regained = λ h. h;
    slot_kept = λ h. inl h;
  }

  work_stays : (t u : Task A) → Later t u → t.work ≢ none → u.work ≢ none
  work_stays t u l h = elim (Option-cases t.work) [
    | inl e ↦ absurd (h e)
    | inr (o, e) ↦ λ n. (cc (l.work_kept o e))
  ]

  Later-trans : (t u v : Task A) → Later t u → Later u v → Later t v
  Later-trans t u v k l = record {
    answer_kept = λ o h. l.answer_kept o (k.answer_kept o h);
    work_kept = λ o h. l.work_kept o (k.work_kept o h);
    signal_kept = λ o h. l.signal_kept o (k.signal_kept o h);
    begun_kept = λ h. l.begun_kept (k.begun_kept h);
    never_regained = λ h. l.never_regained (k.never_regained h);
    slot_kept = λ h. elim (k.slot_kept h) [
      | inl held ↦ l.slot_kept held
      | inr ended ↦ inr (work_stays u v l ended)
    ];
  }

  react-Later : (e : TaskEvent A) (t : Task A) → Coherent t → Later t (react e t)
  unfolding react
  react-Later timer_fired t h = ground arith
  react-Later caller_aborted t h = ground arith
  react-Later work_begun t h = ground arith
  react-Later work_settled t h = ground arith
  react-Later (work_ended p) t h = ground arith

  shut-Later : (t : Task A) → Later t (shut t)
  unfolding shut
  shut-Later t = ground arith

  abbrev Goes : Option (Task A) → Option (Task A) → Type 0
  Goes none o = Unit
  Goes (some t) none = ⊥
  Goes (some t) (some u) = Later t u

  Goes-refl : (o : Option (Task A)) → Goes o o
  Goes-refl none = tt
  Goes-refl (some t) = Later-refl t

  Goes-trans : (o p q : Option (Task A)) → Goes o p → Goes p q → Goes o q
  Goes-trans none p q k l = tt
  Goes-trans (some t) (some u) (some v) k l = Later-trans t u v k l
  Goes-trans (some t) (some u) none k l = absurd l
  Goes-trans (some t) none q k l = absurd k

  Goes-append : (i : ℕ) (ts us : List (Task A)) → Goes (get_elem? ts i) (get_elem? (ts ++ us) i)
  Goes-append i [] us = tt
  Goes-append zero (t ∷ ts) us = Later-refl t
  Goes-append (suc i) (t ∷ ts) us = Goes-append i ts us

  Goes-map-shut : (i : ℕ) (ts : List (Task A)) → Goes (get_elem? ts i) (get_elem? (map shut ts) i)
  Goes-map-shut i [] = tt
  Goes-map-shut zero (t ∷ ts) = shut-Later t
  Goes-map-shut (suc i) (t ∷ ts) = Goes-map-shut i ts

  Goes-modify_at :
      (e : TaskEvent A) (j i : ℕ) (ts : List (Task A))
      → All Coherent ts
      → Goes (get_elem? ts i) (get_elem? (modify_at (react e) j ts) i)
  Goes-modify_at e j i [] h = tt
  Goes-modify_at e zero zero (t ∷ ts) h = react-Later e t h.0
  Goes-modify_at e zero (suc i) (t ∷ ts) h = Goes-refl (get_elem? ts i)
  Goes-modify_at e (suc j) zero (t ∷ ts) h = Later-refl t
  Goes-modify_at e (suc j) (suc i) (t ∷ ts) h = Goes-modify_at e j i ts h.1

  step-Goes :
      (c : Controller A) (e : Event A) (i : ℕ)
      → All Coherent c.tasks
      → Goes (get_elem? c.tasks i) (get_elem? (step c e).tasks i)
  unfolding step
  step-Goes c (run_called aborted) i h =
      unfold run in
      ground (arith, Goes-refl (get_elem? c.tasks i), Goes-append i c.tasks (new_task ∷ []))
  step-Goes c close_called i h =
      unfold close in ground (arith, Goes-refl (get_elem? c.tasks i), Goes-map-shut i c.tasks)
  step-Goes c (drain_ended g) i h =
      unfold end_drain in ground (arith, Goes-refl (get_elem? c.tasks i))
  step-Goes c (at j e) i h = Goes-modify_at e j i c.tasks h

  steps-Goes :
      (c : Controller A) (es : List (Event A)) (i : ℕ)
      → All Coherent c.tasks
      → Goes (get_elem? c.tasks i) (get_elem? (steps c es).tasks i)
  unfolding steps
  steps-Goes c [] i h = Goes-refl (get_elem? c.tasks i)
  steps-Goes c (e ∷ es) i h =
      Goes-trans (get_elem? c.tasks i) (get_elem? (step c e).tasks i)
        (get_elem? (steps (step c e) es).tasks i) (step-Goes c e i h)
        (steps-Goes (step c e) es i (step-Coherent c e h))

  steps-append :
      (c : Controller A) (es fs : List (Event A)) → steps c (es ++ fs) ≡ steps (steps c es) fs
  unfolding steps
  steps-append c [] fs = refl
  steps-append c (e ∷ es) fs = steps-append (step c e) es fs

  -- Of a task that exists after some events: after further events it stands at the same place, an
  -- answer, a work result and an abort that it has stay as they are, its slot is not taken again
  -- once given back, and a slot that it holds is given back only if its work has ended.
  pub steps-Later :
      (n : ℕ) (es fs : List (Event A)) (i : ℕ) (t : Task A)
      → get_elem? (steps (initial n) es).tasks i ≡ some t
      → (u : Task A) × (get_elem? (steps (initial n) (es ++ fs)).tasks i ≡ some u) × Later t u
  steps-Later n es fs i t found =
      rw (steps-append (initial n) es fs)
        (go _ _ found (steps-Goes (steps (initial n) es) fs i (steps-initial-Coherent n es)))
    where
      go : (o p : Option (Task A)) → o ≡ some t → Goes o p → (u : Task A) × (p ≡ some u) × Later t u
      go none p e g = absurd (cc e)
      go (some s) none e g = absurd g
      go (some s) (some u) e g = (u, refl, subst (λ x. Later x u) (some-injective s t e) g)
