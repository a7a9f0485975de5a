-- ===== src/Collector/Tests.antt =====
-- A session of socketAuditSink with two records, and one with a false acknowledgement.
use secure_mcp.Shared.{ℕ, ◌≤◌, ◌≡◌, refl, ◌⊎◌, true, false, List, [], ◌∷◌, ◌++◌, length, take, All}
use secure_mcp.Collector.{initial, Event, submitted, connect, received, steps, on_data}
use secure_mcp.Collector.Order.{InOrder, steps-InOrder}
use secure_mcp.Collector.Latch.{on_data-resolved}

abbrev session : List Event
session = submitted 80 ∷ submitted 90 ∷ connect 0 ∷ received 0 (6 ∷ []) ∷ []

abbrev false_ack : List Event
false_ack = submitted 80 ∷ connect 0 ∷ received 0 (7 ∷ []) ∷ []

abbrev ack : List ℕ
ack = 6 ∷ []

session_tests :
    ((steps (λ _. true) initial session).written ≡ 0 ∷ 1 ∷ [])
    × ((steps (λ _. true) initial session).resolved ≡ 0 ∷ [])
    × ((steps (λ _. false) initial session).written ≡ 0 ∷ [])
    × ((steps (λ _. true) initial false_ack).failed ≡ true)
    × ((steps (λ _. true) initial false_ack).rejected ≡ 0 ∷ [])
unfolding steps initial
session_tests = (refl, refl, refl, refl, refl)

steps-InOrder_example : InOrder (steps (λ _. true) initial session)
steps-InOrder_example = steps-InOrder (λ _. true) session

on_data-resolved_example :
    let s = steps (λ _. true) initial session in
    let u = on_data (λ _. true) 0 ack s in
    (u.resolved ≡ s.resolved)
    ⊎ All (λ b. b ≡ 6) ack
      × (length ack ≤ s.sent)
      × (u.resolved ≡ s.resolved ++ take (length ack) s.pending)
on_data-resolved_example = on_data-resolved (λ _. true) 0 ack (steps (λ _. true) initial session)
