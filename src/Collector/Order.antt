-- ===== src/Collector/Order.antt =====
-- Records reach the collector in order and at most once, and a promise resolves only for a record
-- that was written.
use secure_mcp.Shared.{
  ℕ, ◌≤◌, ◌≡◌, refl, ap, inl, inr, Bool, List, ◌++◌, arith, length, take, drop, take-append_drop,
  append_assoc,
}
use secure_mcp.Collector.{initial, steps, Event, Sink}
use secure_mcp.Collector.Books.{Inv, initial-Inv}
use secure_mcp.Collector.Events.{steps-Inv}
use secure_mcp.Collector.Numbers.{Numbered, steps-Numbered}

-- What the books of a sink say in every reachable state.
pub record InOrder (s : Sink) : Type 0 where
  pub unresolved : List ℕ
  pub unwritten : List ℕ
  -- what was written is what was resolved and more, what was accepted is what was written and more
  pub resolved_first : s.written ≡ s.resolved ++ unresolved
  pub written_first : s.accepted ≡ s.written ++ unwritten
  -- the records are those from 0 on, so none comes twice
  pub numbered : Numbered s.accepted
  pub bounded : length s.pending ≤ 1024

InOrder-split :
    (s : Sink) (k : ℕ) (rest : List ℕ)
    → s.accepted ≡ s.resolved ++ rest
    → s.written ≡ s.resolved ++ take k rest
    → length s.pending ≤ 1024
    → Numbered s.accepted
    → InOrder s
InOrder-split s k rest a w b n = record {
  unresolved = take k rest;
  unwritten = drop k rest;
  resolved_first = w;
  written_first = rw (w, append_assoc, take-append_drop k rest) a;
  numbered = n;
  bounded = b;
}

Inv-InOrder : (s : Sink) → Inv s → Numbered s.accepted → InOrder s
Inv-InOrder s (inl a) n = InOrder-split s s.sent s.pending a.order a.wire a.bounded n
Inv-InOrder s (inr f) n =
    InOrder-split s f.on_wire s.rejected f.order f.wire (omega (arith, ap length f.none_pending)) n

-- Whatever the connections do, the records are written in the order in which they were accepted,
-- each at most once, promises are resolved in that order and only for written records, and at most
-- 1024 records wait.
pub steps-InOrder :
    (takes_more : ℕ → Bool) (es : List Event) → InOrder (steps takes_more initial es)
steps-InOrder t es =
    Inv-InOrder (steps t initial es) (steps-Inv t initial es initial-Inv)
      (steps-Numbered t initial es (unfold initial in refl))
