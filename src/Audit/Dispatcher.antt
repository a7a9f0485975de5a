-- ===== src/Audit/Dispatcher.antt =====
-- src/audit.ts: AuditDispatcher. Each accepted call of `write` is a delivery; a delivery whose flag
-- `pending` is set is a member of the set `pending`. `E` is the type of the events.
pub mod Latch
pub mod Slots
mod Tests
use secure_mcp.Shared.{
  ℕ, ◌+◌, Bool, true, false, not, ◌&&◌, ◌||◌, Option, none, some, List, [], ◌∷◌, ◌++◌, leb, ◌==◌,
  if◌then◌else◌, get_elem?, modify_at, tally,
}

pub record Delivery (E : Type 0) : Type 0 where
  pub event : E
  -- how the sink's promise ended, and what the caller of `write` was answered
  pub work : Option Bool
  pub answer : Option Bool
  pub pending : Bool

-- The sink's own close: not asked for, running, or ended well or badly.
pub data SinkClosing : Type 0 where
  unasked running : SinkClosing
  ended : Bool → SinkClosing

pub record Dispatcher (E : Type 0) : Type 0 where
  pub capacity : ℕ
  pub deliveries : List (Delivery E)
  pub failures : ℕ
  pub dropped : ℕ
  pub sink_closing : SinkClosing

-- A promise keeps the first result that it is given.
abbrev pub first : Option Bool → Bool → Option Bool
first none b = some b
first (some a) _ = some a

abbrev pub is_none : Option Bool → Bool
is_none none = true
is_none (some _) = false

module _ {E : Type 0} where
  unfoldable pub healthy : Dispatcher E → Bool
  healthy d = d.failures == 0 && d.dropped == 0

  unfoldable pub pending_size : Dispatcher E → ℕ
  pending_size d = tally (λ w. w.pending) d.deliveries

  -- `write`, up to the first wait: an event is dropped, or handed to the sink. The Boolean says
  -- whether it was accepted.
  unfoldable pub write : E → Dispatcher E → Dispatcher E × Bool
  unfolding healthy pending_size
  write event d =
      if not (healthy d) || leb d.capacity (pending_size d)
      then (record d { dropped = d.dropped + 1 }, false)
      else (
        record d {
          deliveries =
              d.deliveries
              ++ record { event = event; work = none; answer = none; pending = true } ∷ [];
        },
        true,
      )

  -- The sink's promise settles, once; the race with the timer ends if it has not.
  unfoldable pub settle : Bool → Delivery E → Delivery E
  settle ok w = elim w.work [
    | some _ ↦ w
    | none ↦ record w { work = some ok; answer = first w.answer ok }
  ]

  -- The `finally` that removes the delivery from `pending`.
  unfoldable pub forget : Delivery E → Delivery E
  forget w = elim w.work [ none ↦ w | some _ ↦ record w { pending = false } ]

  unfoldable pub time_out : Delivery E → Delivery E
  time_out w = record w { answer = first w.answer false }

pub data DeliveryEvent : Type 0 where
  sink_settled : Bool → DeliveryEvent
  removed timer_fired : DeliveryEvent

module _ {E : Type 0} where
  unfoldable pub react : DeliveryEvent → Delivery E → Delivery E
  unfolding settle forget time_out
  react (sink_settled ok) = settle ok
  react removed = forget
  react timer_fired = time_out

  -- Whether the caller is answered by a failure now, the `catch` of `deliver`.
  unfoldable pub fails : DeliveryEvent → Delivery E → Bool
  fails (sink_settled ok) w = is_none w.work && (is_none w.answer && not ok)
  fails removed w = false
  fails timer_fired w = is_none w.answer

  abbrev pub fails_at : DeliveryEvent → Option (Delivery E) → ℕ
  fails_at e none = 0
  fails_at e (some w) = if fails e w then 1 else 0

pub data Event (E : Type 0) : Type 0 where
  write_called : E → Event E
  at : ℕ → DeliveryEvent → Event E
  close_reached sink_close_failed sink_close_done : Event E

module _ {E : Type 0} where
  -- `this.sinkClosing ??= this.closeSink()`
  unfoldable pub close_sink : Dispatcher E → Dispatcher E
  close_sink d = elim d.sink_closing [ unasked ↦ record d { sink_closing = running } | _ ↦ d ]

  -- `closeSink` ends; a failed or late close counts as a failure.
  unfoldable pub end_close : Bool → Dispatcher E → Dispatcher E
  end_close ok d = elim d.sink_closing [
    | running ↦ record d {
      sink_closing = ended ok;
      failures = if ok then d.failures else d.failures + 1;
    }
    | _ ↦ d
  ]

  unfoldable pub step : Dispatcher E → Event E → Dispatcher E
  unfolding write react fails close_sink end_close
  step d (write_called event) = (write event d).0
  step d (at i e) = record d {
    deliveries = modify_at (react e) i d.deliveries;
    failures = d.failures + fails_at e (get_elem? d.deliveries i);
  }
  step d close_reached = close_sink d
  step d sink_close_failed = end_close false d
  step d sink_close_done = end_close true d

  unfoldable pub steps : Dispatcher E → List (Event E) → Dispatcher E
  unfolding step
  steps d [] = d
  steps d (e ∷ es) = steps (step d e) es

  unfoldable pub initial : ℕ → Dispatcher E
  initial capacity = record {
    capacity = capacity;
    deliveries = [];
    failures = 0;
    dropped = 0;
    sink_closing = unasked;
  }
