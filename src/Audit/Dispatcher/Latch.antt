-- ===== src/Audit/Dispatcher/Latch.antt =====
-- Delivery loss latches readiness off.
use secure_mcp.Shared.{
  ℕ, zero, suc, ◌≡◌, refl, sym, ap, ◌∙◌, ◌≢◌, ◌⊎◌, inl, inr, Bool, true, false, Option, none, some,
  List, [], ◌∷◌, ◌++◌, map, arith, Bool-cases, get_elem?, All, All-append, modify_at, append-nil,
  append_assoc,
}
use mathlib.Core.List.{map-append}
use secure_mcp.Audit.Dispatcher.{
  running, Delivery, Dispatcher, DeliveryEvent, sink_settled, removed, timer_fired, Event,
  write_called, at, close_reached, sink_close_failed, sink_close_done, healthy, write, react, step,
  steps, initial, fails, fails_at,
}

module _ {E : Type 0} where
  healthy-step : (d : Dispatcher E) (e : Event E) → healthy (step d e) ≡ true → healthy d ≡ true
  unfolding step healthy
  healthy-step d (write_called event) h = ground arith
  healthy-step d (at i e) h = ground arith
  healthy-step d close_reached h = ground arith
  healthy-step d sink_close_failed h = ground arith
  healthy-step d sink_close_done h = ground arith

  -- An unhealthy dispatcher stays so.
  healthy-steps :
      (d : Dispatcher E) (es : List (Event E)) → healthy (steps d es) ≡ true → healthy d ≡ true
  unfolding steps
  healthy-steps d [] h = h
  healthy-steps d (e ∷ es) h = healthy-step d e (healthy-steps (step d e) es h)

  unhealthy_refuses :
      (d : Dispatcher E) (es : List (Event E)) (event : E)
      → healthy d ≡ false
      → (healthy (steps d es) ≡ false) × ((write event (steps d es)).1 ≡ false)
  unhealthy_refuses d es event h = elim (Bool-cases (healthy (steps d es))) [
    | inl on ↦ absurd (cc (healthy-steps d es on))
    | inr off ↦ (off, unfold write in rw off refl)
  ]

  -- Whether a delivery has been answered, or nothing is there.
  abbrev pub answer_at : List (Delivery E) → ℕ → Option Bool
  answer_at [] i = none
  answer_at (w ∷ ws) zero = w.answer
  answer_at (w ∷ ws) (suc i) = answer_at ws i

  -- What loses an event or the sink: a write that is not accepted, a write that was unanswered and is
  -- now answered by a failure, and a close of the sink that runs and fails.
  abbrev pub Loses : Dispatcher E → Event E → Type 0
  Loses d (write_called event) = (write event d).1 ≡ false
  Loses d (at i e) =
      (answer_at d.deliveries i ≡ none) × (answer_at (step d (at i e)).deliveries i ≡ some false)
  Loses d close_reached = ⊥
  Loses d sink_close_failed = d.sink_closing ≡ running
  Loses d sink_close_done = ⊥

  answered-fails :
      (e : DeliveryEvent) (i : ℕ) (ws : List (Delivery E))
      → answer_at ws i ≡ none
      → answer_at (modify_at (react e) i ws) i ≡ some false
      → fails_at e (get_elem? ws i) ≡ 1
  unfolding react fails
  answered-fails e i [] h k = absurd (cc)
  answered-fails (sink_settled ok) zero (w ∷ ws) h k = ground arith
  answered-fails removed zero (w ∷ ws) h k = ground arith
  answered-fails timer_fired zero (w ∷ ws) h k = ground arith
  answered-fails e (suc i) (w ∷ ws) h k = answered-fails e i ws h k

  Loses-unhealthy : (d : Dispatcher E) (e : Event E) → Loses d e → healthy (step d e) ≡ false
  unfolding step healthy
  Loses-unhealthy d (write_called event) h = ground arith
  Loses-unhealthy d (at i e) (h, k) = ground (arith, answered-fails e i d.deliveries h k)
  Loses-unhealthy d close_reached h = absurd h
  Loses-unhealthy d sink_close_failed h = ground arith
  Loses-unhealthy d sink_close_done h = absurd h

  -- When a write is not accepted, when the caller of a write is answered by a failure, or when the close
  -- of the sink fails, then from there on, whatever else happens, the dispatcher is unhealthy and refuses
  -- every write.
  pub write-steps-refused :
      (d : Dispatcher E) (e : Event E) (es : List (Event E)) (event : E)
      → Loses d e
      → (healthy (steps (step d e) es) ≡ false) × ((write event (steps (step d e) es)).1 ≡ false)
  write-steps-refused d e es event h = unhealthy_refuses (step d e) es event (Loses-unhealthy d e h)

  -- While the dispatcher is healthy, an answer is a success, and it is the sink's.
  abbrev pub IsKept : Delivery E → Type 0
  IsKept w =
      ((w.answer ≡ none) ⊎ (w.answer ≡ some true) × (w.work ≡ some true)) × (w.work ≢ some false)

  react-IsKept :
      (e : DeliveryEvent) (w : Delivery E) → fails e w ≡ false → IsKept w → IsKept (react e w)
  unfolding react fails
  react-IsKept (sink_settled ok) w f h = ground arith
  react-IsKept removed w f h = ground arith
  react-IsKept timer_fired w f h = ground arith

  modify_at-IsKept :
      (e : DeliveryEvent) (i : ℕ) (ws : List (Delivery E))
      → fails_at e (get_elem? ws i) ≡ 0
      → All IsKept ws
      → All IsKept (modify_at (react e) i ws)
  modify_at-IsKept e i [] f h = tt
  modify_at-IsKept e zero (w ∷ ws) f (k, h) = (react-IsKept e w (ground arith) k, h)
  modify_at-IsKept e (suc i) (w ∷ ws) f (k, h) = (k, modify_at-IsKept e i ws f h)

  step-IsKept :
      (d : Dispatcher E) (e : Event E)
      → healthy (step d e) ≡ true
      → All IsKept d.deliveries
      → All IsKept (step d e).deliveries
  unfolding step healthy
  step-IsKept d (write_called event) h k = ground (
    arith,
    All-append IsKept d.deliveries
        (record { event = event; work = none; answer = none; pending = true } ∷ []) k
        ((inl refl, λ e. (cc)), tt),
  )
  step-IsKept d (at i e) h k = modify_at-IsKept e i d.deliveries (ground arith) k
  step-IsKept d close_reached h k = ground (arith, k)
  step-IsKept d sink_close_failed h k = ground (arith, k)
  step-IsKept d sink_close_done h k = ground (arith, k)

  steps-IsKept :
      (d : Dispatcher E) (es : List (Event E))
      → healthy (steps d es) ≡ true
      → All IsKept d.deliveries
      → All IsKept (steps d es).deliveries
  unfolding steps
  steps-IsKept d [] h k = k
  steps-IsKept d (e ∷ es) h k =
      steps-IsKept (step d e) es h (step-IsKept d e (healthy-steps (step d e) es h) k)

  -- The events that `write` is called with, in order.
  abbrev pub written : List (Event E) → List E
  written [] = []
  written (write_called event ∷ es) = event ∷ written es
  written (_ ∷ es) = written es

  written-cons :
      (e : Event E) (es : List (Event E)) → written (e ∷ es) ≡ written (e ∷ []) ++ written es
  written-cons (write_called event) es = refl
  written-cons (at i e) es = refl
  written-cons close_reached es = refl
  written-cons sink_close_failed es = refl
  written-cons sink_close_done es = refl

  abbrev pub events : List (Delivery E) → List E
  events ws = map (λ w. w.event) ws

  react-event : (e : DeliveryEvent) (w : Delivery E) → (react e w).event ≡ w.event
  unfolding react
  react-event (sink_settled ok) w = ground arith
  react-event removed w = ground arith
  react-event timer_fired w = ground arith

  events-modify_at :
      (e : DeliveryEvent) (i : ℕ) (ws : List (Delivery E))
      → events (modify_at (react e) i ws) ≡ events ws
  events-modify_at e i [] = refl
  events-modify_at e zero (w ∷ ws) = rw (react-event e w)
  events-modify_at e (suc i) (w ∷ ws) = rw (events-modify_at e i ws)

  step-events :
      (d : Dispatcher E) (e : Event E)
      → healthy (step d e) ≡ true
      → events (step d e).deliveries ≡ events d.deliveries ++ written (e ∷ [])
  unfolding step healthy
  step-events d (write_called event) h = ground (
    arith,
    map-append (λ (w : Delivery E). w.event) d.deliveries
        (record { event = event; work = none; answer = none; pending = true } ∷ []),
  )
  step-events d (at i e) h = events-modify_at e i d.deliveries ∙ sym (append-nil _)
  step-events d close_reached h = ground (arith, append-nil (events d.deliveries))
  step-events d sink_close_failed h = ground (arith, append-nil (events d.deliveries))
  step-events d sink_close_done h = ground (arith, append-nil (events d.deliveries))

  steps-events :
      (d : Dispatcher E) (es : List (Event E))
      → healthy (steps d es) ≡ true
      → events (steps d es).deliveries ≡ events d.deliveries ++ written es
  unfolding steps
  steps-events d [] h = sym (append-nil _)
  steps-events d (e ∷ es) h =
      steps-events (step d e) es h
      ∙ rw (step-events d e (healthy-steps (step d e) es h), append_assoc)
          (ap (λ ws. events d.deliveries ++ ws) (sym (written-cons e es)))

  -- While a dispatcher is healthy it has lost nothing: the events that were handed to the sink are
  -- all those that `write` was called with, in their order, and every write that has been answered
  -- succeeded after the sink acknowledged it.
  pub healthy_complete :
      (capacity : ℕ) (es : List (Event E))
      → let d = steps (initial capacity) es in
        healthy d ≡ true → (events d.deliveries ≡ written es) × All IsKept d.deliveries
  unfolding initial
  healthy_complete n es h = (steps-events (initial n) es h, steps-IsKept (initial n) es h tt)
