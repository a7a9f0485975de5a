-- ===== src/Collector.antt =====
-- src/collector.ts: socketAuditSink. A record is known by the number of records accepted before it;
-- a connection by a number of its own, so that an event of an old connection can be told apart. What
-- the sink does to the outside, resolving and rejecting promises and writing to a connection, is
-- kept in lists, oldest first.
pub mod Books
pub mod Events
pub mod Numbers
pub mod Order
pub mod Latch
mod Tests
use secure_mcp.Shared.{
  ℕ, ◌+◌, ◌-◌, Bool, true, false, not, ◌&&◌, ◌||◌, Option, none, some, List, [], ◌∷◌, ◌++◌, ltb,
  leb, ◌==◌, if◌then◌else◌, length, any, take, drop,
}

pub record Sink : Type 0 where
  pub pending : List ℕ
  pub socket : Option ℕ
  pub opened : ℕ
  pub connected : Bool
  pub writable : Bool
  pub sent : ℕ
  pub failed : Bool
  pub closed : Bool
  -- the records accepted, written, resolved and rejected so far
  pub accepted : List ℕ
  pub written : List ℕ
  pub resolved : List ℕ
  pub rejected : List ℕ

unfoldable pub initial : Sink
initial = record {
  pending = [];
  socket = none;
  opened = 0;
  connected = false;
  writable = false;
  sent = 0;
  failed = false;
  closed = false;
  accepted = [];
  written = [];
  resolved = [];
  rejected = [];
}

-- `fail`: every pending promise is rejected. The socket stays until its `close` event.
unfoldable pub fail : Sink → Sink
fail s = record s { failed = true; rejected = s.rejected ++ s.pending; pending = []; sent = 0 }

-- The loop of `flush` over the records that are not yet sent; `socket.write(line)` answers whether
-- the connection takes more.
unfoldable pub flush_from : (ℕ → Bool) → List ℕ → Sink → Sink
flush_from takes_more [] s = s
flush_from takes_more (r ∷ rs) s =
    let next =
      flush_from takes_more rs
        (record s { written = s.written ++ r ∷ []; sent = s.sent + 1; writable = takes_more r }) in
    if s.writable then next else s

abbrev pub is_some : Option ℕ → Bool
is_some none = false
is_some (some _) = true

unfoldable pub flush : (ℕ → Bool) → Sink → Sink
unfolding flush_from
flush takes_more s =
    if is_some s.socket && s.connected then flush_from takes_more (drop s.sent s.pending) s else s

-- `open`: a connection with a new number.
unfoldable pub open_socket : Sink → Sink
open_socket s = elim s.socket [
  | none ↦ record s { socket = some s.opened; opened = s.opened + 1 }
  | some _ ↦ s
]

-- `socket === current`
unfoldable pub is_current : ℕ → Sink → Bool
is_current g s = elim s.socket [ none ↦ false | some h ↦ g == h ]

-- The handlers of a connection's `connect` and `drain` events.
unfoldable pub on_connect : (ℕ → Bool) → ℕ → Sink → Sink
unfolding flush is_current
on_connect takes_more g s =
    if is_current g s then flush takes_more (record s { connected = true; writable = true }) else s

unfoldable pub on_drain : (ℕ → Bool) → ℕ → Sink → Sink
unfolding flush is_current
on_drain takes_more g s =
    if is_current g s then flush takes_more (record s { writable = true }) else s

-- The loop over the bytes of an acknowledgement: one record for each, oldest first.
abbrev pub acknowledge : ℕ → Sink → Sink
acknowledge n s = record s {
  pending = drop n s.pending;
  resolved = s.resolved ++ take n s.pending;
  sent = s.sent - n;
}

-- The handler of `data`: too many bytes, or a byte other than ACK, is a failure.
unfoldable pub on_data : (ℕ → Bool) → ℕ → List ℕ → Sink → Sink
unfolding flush is_current fail
on_data takes_more g bytes s =
    if is_current g s
    then (if ltb s.sent (length bytes) || any (λ b. not (b == 6)) bytes
        then fail s
        else flush takes_more (acknowledge (length bytes) s))
    else s

unfoldable pub on_error : ℕ → Sink → Sink
unfolding fail is_current
on_error g s = if is_current g s && ltb 0 (length s.pending) then fail s else s

-- The handler of `end` and `close`.
unfoldable pub disconnected : ℕ → Sink → Sink
unfolding fail is_current
disconnected g s =
    if is_current g s
    then (let s' = if ltb 0 (length s.pending) then fail s else s in
        record s' { socket = none; connected = false; writable = false })
    else s

-- A record's timer, which is cleared when the record leaves `pending`.
unfoldable pub on_timeout : ℕ → Sink → Sink
unfolding fail
on_timeout r s = if any (λ p. p == r) s.pending then fail s else s

-- `pending.push(…)`, of a record that is accepted now.
abbrev pub enqueue : ℕ → Sink → Sink
enqueue r s = record s { pending = s.pending ++ r ∷ []; accepted = s.accepted ++ r ∷ [] }

-- The sink itself, at a record of the given length in bytes; the Boolean says whether the record is
-- accepted, or else rejected at once.
unfoldable pub submit : (ℕ → Bool) → ℕ → Sink → Sink × Bool
unfolding open_socket flush
submit takes_more size s =
    if s.failed || (s.closed || leb 1024 (length s.pending))
    then (s, false)
    else if ltb 4096 size
    then (s, false)
    else (flush takes_more (open_socket (enqueue (length s.accepted) s)), true)

-- `sink.close`
unfoldable pub close : Sink → Sink
unfolding fail
close s = let s' = record s { closed = true } in if ltb 0 (length s.pending) then fail s' else s'

pub data Event : Type 0 where
  submitted : ℕ → Event
  connect drain_event errored ended : ℕ → Event
  received : ℕ → List ℕ → Event
  timed_out : ℕ → Event
  close_called : Event

unfoldable pub step : (ℕ → Bool) → Sink → Event → Sink
unfolding submit on_connect on_drain on_error disconnected on_data on_timeout close
step takes_more s (submitted size) = (submit takes_more size s).0
step takes_more s (connect g) = on_connect takes_more g s
step takes_more s (drain_event g) = on_drain takes_more g s
step takes_more s (errored g) = on_error g s
step takes_more s (ended g) = disconnected g s
step takes_more s (received g bytes) = on_data takes_more g bytes s
step takes_more s (timed_out r) = on_timeout r s
step takes_more s close_called = close s

unfoldable pub steps : (ℕ → Bool) → Sink → List Event → Sink
unfolding step
steps takes_more s [] = s
steps takes_more s (e ∷ es) = steps takes_more (step takes_more s e) es
