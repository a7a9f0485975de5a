-- ===== src/Execution/Tasks.antt =====
-- One task under one event, and the count of held slots over the list of tasks.
use secure_mcp.Shared.{
  ℕ, zero, suc, ◌+◌, ◌≤◌, ◌≡◌, refl, ◌≢◌, ◌⊎◌, false, none, List, [], ◌∷◌, ◌++◌, map, arith,
  if◌then◌else◌, All, modify_at,
}
use secure_mcp.Execution.{
  Task, TaskEvent, timer_fired, caller_aborted, work_begun, work_settled, work_ended, held_count,
  react, shut,
}

module _ {A : Type 0} where
  abbrev pub slot : Task A → ℕ
  slot t = if t.held then 1 else 0

  pub held_count-append :
      (xs ys : List (Task A)) → held_count (xs ++ ys) ≡ held_count xs + held_count ys
  held_count-append [] ys = omega arith
  held_count-append (t ∷ xs) ys = omega (arith, held_count-append xs ys)

  pub held-shut : (t : Task A) → (shut t).held ≡ t.held
  unfolding shut
  held-shut t = ground arith

  pub held_count-map-shut : (ts : List (Task A)) → held_count (map shut ts) ≡ held_count ts
  held_count-map-shut [] = refl
  held_count-map-shut (t ∷ ts) = rw (held-shut t, held_count-map-shut ts)

  -- No event gives a slot back but the settlement of work that has ended.
  pub react-slot :
      (e : TaskEvent A) (t : Task A)
      → ((react e t).held ≡ t.held)
        ⊎ ((e ≡ work_settled) × (t.work ≢ none) × ((react e t).held ≡ false))
  unfolding react
  react-slot timer_fired t = ground arith
  react-slot caller_aborted t = ground arith
  react-slot work_begun t = ground arith
  react-slot work_settled t = ground arith
  react-slot (work_ended o) t = ground arith

  pub slot-react-le : (e : TaskEvent A) (t : Task A) → slot (react e t) ≤ slot t
  slot-react-le e t = ground (arith, react-slot e t)

  pub held_count-modify_at-le :
      (e : TaskEvent A) (i : ℕ) (ts : List (Task A))
      → held_count (modify_at (react e) i ts) ≤ held_count ts
  held_count-modify_at-le e i [] = omega arith
  held_count-modify_at-le e zero (t ∷ ts) = omega (arith, slot-react-le e t)
  held_count-modify_at-le e (suc i) (t ∷ ts) = omega (arith, held_count-modify_at-le e i ts)

  pub All-map-shut :
      (P : Task A → Type 0) (ts : List (Task A))
      → ((t : Task A) → P t → P (shut t))
      → All P ts
      → All P (map shut ts)
  All-map-shut P [] f h = tt
  All-map-shut P (t ∷ ts) f (p, h) = (f t p, All-map-shut P ts f h)
