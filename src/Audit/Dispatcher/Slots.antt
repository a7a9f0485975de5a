-- ===== src/Audit/Dispatcher/Slots.antt =====
-- The capacity of the dispatcher: no queue, and a blocked sink keeps its slots.
use secure_mcp.Shared.{
  ℕ, ◌≤◌, ◌≡◌, refl, true, none, List, [], ◌∷◌, arith, tally-append, tally-modify_at-le,
}
use secure_mcp.Audit.Dispatcher.{
  Delivery, Dispatcher, DeliveryEvent, sink_settled, removed, timer_fired, Event, write_called, at,
  close_reached, sink_close_failed, sink_close_done, pending_size, react, step, steps, initial,
}

module _ {E : Type 0} where
  abbrev Within : Dispatcher E → Type 0
  Within d = pending_size d ≤ d.capacity

  react-pending :
      (e : DeliveryEvent) (w : Delivery E) → (react e w).pending ≡ true → w.pending ≡ true
  unfolding react
  react-pending (sink_settled ok) w h = ground arith
  react-pending removed w h = ground arith
  react-pending timer_fired w h = ground arith

  step-Within : (d : Dispatcher E) (e : Event E) → Within d → Within (step d e)
  unfolding step pending_size
  step-Within d (write_called event) h = ground (
    arith,
    tally-append (λ w. w.pending) d.deliveries
        (record { event = event; work = none; answer = none; pending = true } ∷ []),
  )
  step-Within d (at i e) h =
      omega (arith, tally-modify_at-le (λ w. w.pending) (react e) i d.deliveries (react-pending e))
  step-Within d close_reached h = ground arith
  step-Within d sink_close_failed h = ground arith
  step-Within d sink_close_done h = ground arith

  capacity-step : (d : Dispatcher E) (e : Event E) → (step d e).capacity ≡ d.capacity
  unfolding step
  capacity-step d (write_called event) = ground arith
  capacity-step d (at i e) = refl
  capacity-step d close_reached = ground arith
  capacity-step d sink_close_failed = ground arith
  capacity-step d sink_close_done = ground arith

  steps-Within :
      (d : Dispatcher E) (es : List (Event E)) → Within d → pending_size (steps d es) ≤ d.capacity
  unfolding steps
  steps-Within d [] h = h
  steps-Within d (e ∷ es) h =
      omega (arith, steps-Within (step d e) es (step-Within d e h), capacity-step d e)

  -- At no time are more writes in flight than the capacity, also where callers timed out.
  pending_size-steps-le :
      (capacity : ℕ) (es : List (Event E)) → pending_size (steps (initial capacity) es) ≤ capacity
  unfolding initial pending_size
  pending_size-steps-le n es = steps-Within (initial n) es (omega arith)
