-- ===== src/Audit/Dispatcher/Tests.antt =====
-- A dispatcher of capacity one: an acknowledged write, a late sink, and what follows.
use secure_mcp.Shared.{ℕ, ◌≡◌, refl, true, false, List, [], ◌∷◌, All}
use secure_mcp.Audit.Dispatcher.{
  Dispatcher, step, sink_settled, removed, timer_fired, Event, write_called, at, healthy,
  pending_size, write, steps, initial,
}
use secure_mcp.Audit.Dispatcher.Latch.{
  IsKept, events, written, healthy_complete, write-steps-refused,
}

abbrev acknowledged : List (Event ℕ)
acknowledged = write_called 7 ∷ at 0 (sink_settled true) ∷ at 0 removed ∷ write_called 8 ∷ []

abbrev late : List (Event ℕ)
late = write_called 7 ∷ at 0 timer_fired ∷ []

dispatcher_tests :
    (healthy (steps (initial 1) acknowledged) ≡ true)
    × (pending_size (steps (initial 1) acknowledged) ≡ 1)
    × ((write 9 (steps (initial 1) acknowledged)).1 ≡ false)
    × (healthy (steps (initial 1) late) ≡ false)
    × (pending_size (steps (initial 1) late) ≡ 1)
    × ((steps (initial 1) late).failures ≡ 1)
unfolding steps initial healthy pending_size write
dispatcher_tests = (refl, refl, refl, refl, refl, refl)

-- A write at the full capacity of one is refused, and the next too, when the slot is free again.
abbrev after_loss : List (Event ℕ)
after_loss = at 0 (sink_settled true) ∷ at 0 removed ∷ []

abbrev busy : Dispatcher ℕ
busy = steps (initial 1) (write_called 7 ∷ [])

full : (write 8 busy).1 ≡ false
unfolding steps initial write pending_size healthy
full = refl

write-steps-refused_example :
    let d = steps (step busy (write_called 8)) after_loss in
    (healthy d ≡ false) × ((write 9 d).1 ≡ false)
write-steps-refused_example = write-steps-refused busy (write_called 8) after_loss 9 full

healthy_complete_example :
    (events (steps (initial 1) acknowledged).deliveries ≡ written acknowledged)
    × All IsKept (steps (initial 1) acknowledged).deliveries
healthy_complete_example = healthy_complete 1 acknowledged dispatcher_tests.0
