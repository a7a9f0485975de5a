-- ===== src/Collector/Events.antt =====
-- Every event keeps the books of socketAuditSink.
use secure_mcp.Shared.{
  ℕ, ◌+◌, ◌<◌, refl, inl, inr, Bool, true, false, not, ◌||◌, none, some, List, [], ◌∷◌, arith, ltb,
  leb, ◌==◌, Bool-cases, length, any, length-append, take-append, append_assoc,
}
use secure_mcp.Collector.{
  close_called, timed_out, received, ended, errored, drain_event, connect, enqueue, submitted,
  is_current, step, open_socket, close, steps, on_data, submit, on_timeout, on_error, Event,
  disconnected, on_drain, on_connect, acknowledge, fail, Sink,
}
use secure_mcp.Collector.Books.{Alive, Inv, SameBooks-Inv, fail-Inv, flush-Inv, acknowledge-Inv}

on_connect-Inv :
    (takes_more : ℕ → Bool) (g : ℕ) (s : Sink) → Inv s → Inv (on_connect takes_more g s)
unfolding on_connect
on_connect-Inv t g s i = ground (
  arith,
  i,
  flush-Inv t (record s { connected = true; writable = true })
      (SameBooks-Inv s (record s { connected = true; writable = true })
        (refl, refl, refl, refl, refl, refl, refl) i),
)

on_drain-Inv : (takes_more : ℕ → Bool) (g : ℕ) (s : Sink) → Inv s → Inv (on_drain takes_more g s)
unfolding on_drain
on_drain-Inv t g s i = ground (
  arith,
  i,
  flush-Inv t (record s { writable = true })
      (SameBooks-Inv s (record s { writable = true }) (refl, refl, refl, refl, refl, refl, refl) i),
)

on_data-Inv :
    (takes_more : ℕ → Bool) (g : ℕ) (bytes : List ℕ) (s : Sink)
    → Inv s
    → Inv (on_data takes_more g bytes s)
unfolding on_data
on_data-Inv t g bytes s i = elim (Bool-cases (is_current g s)) [
  | inr old ↦ simp old i
  | inl now ↦ elim (Bool-cases (ltb s.sent (length bytes) || any (λ b. not (b == 6)) bytes)) [
    | inl bad ↦ simp (now, bad) (fail-Inv s i)
    | inr good ↦
        simp (now, good)
          (flush-Inv t (acknowledge (length bytes) s)
            (acknowledge-Inv (length bytes) s (ground arith) i))
  ]
]

on_error-Inv : (g : ℕ) (s : Sink) → Inv s → Inv (on_error g s)
unfolding on_error
on_error-Inv g s i = ground (arith, i, fail-Inv s i)

on_timeout-Inv : (r : ℕ) (s : Sink) → Inv s → Inv (on_timeout r s)
unfolding on_timeout
on_timeout-Inv r s i = ground (arith, i, fail-Inv s i)

lose : Sink → Sink
lose s = record s { socket = none; connected = false; writable = false }

lose-Inv : (s : Sink) → Inv s → Inv (lose s)
unfolding lose
lose-Inv s i =
    SameBooks-Inv s (record s { socket = none; connected = false; writable = false })
      (refl, refl, refl, refl, refl, refl, refl) i

disconnected-Inv : (g : ℕ) (s : Sink) → Inv s → Inv (disconnected g s)
unfolding disconnected lose
disconnected-Inv g s i = elim (Bool-cases (is_current g s)) [
  | inr old ↦ simp old i
  | inl now ↦ elim (Bool-cases (ltb 0 (length s.pending))) [
    | inl busy ↦ simp (now, busy) (lose-Inv (fail s) (fail-Inv s i))
    | inr idle ↦ simp (now, idle) (lose-Inv s i)
  ]
]

close-Inv : (s : Sink) → Inv s → Inv (close s)
unfolding close
close-Inv s i =
    let i' : Inv (record s { closed = true }) =
      SameBooks-Inv s (record s { closed = true }) (refl, refl, refl, refl, refl, refl, refl) i in
    ground (arith, i', fail-Inv (record s { closed = true }) i')

open_socket-Inv : (s : Sink) → Inv s → Inv (open_socket s)
unfolding open_socket
open_socket-Inv s i = ground (
  arith,
  i,
  SameBooks-Inv s (record s { socket = some s.opened; opened = s.opened + 1 })
      (refl, refl, refl, refl, refl, refl, refl) i,
)

accept-Alive : (s : Sink) (r : ℕ) → length s.pending < 1024 → Alive s → Alive (enqueue r s)
accept-Alive s r h a = record {
  working = a.working;
  none_rejected = a.none_rejected;
  sent_le = omega (arith, length-append s.pending (r ∷ []), a.sent_le);
  bounded = omega (arith, length-append s.pending (r ∷ []));
  order = rw (a.order) (append_assoc s.resolved s.pending (r ∷ []));
  wire = rw (take-append s.sent s.pending (r ∷ []) a.sent_le) a.wire;
}

submit-Inv :
    (takes_more : ℕ → Bool) (size : ℕ) (s : Sink) → Inv s → Inv (submit takes_more size s).0
unfolding submit
submit-Inv t size s (inr f) = inr (ground (arith, f, f.broken))
submit-Inv t size s (inl a) =
    elim (Bool-cases (s.failed || (s.closed || leb 1024 (length s.pending)))) [
      | inl full ↦ simp full (inl a)
      | inr room ↦ elim (Bool-cases (ltb 4096 size)) [
        | inl long ↦ simp (room, long) (inl a)
        | inr fits ↦
            simp (room, fits)
              (flush-Inv t (open_socket (enqueue (length s.accepted) s)) (
                open_socket-Inv (enqueue (length s.accepted) s)
                  (inl (accept-Alive s (length s.accepted) (ground arith) a))))
      ]
    ]

pub step-Inv : (takes_more : ℕ → Bool) (s : Sink) (e : Event) → Inv s → Inv (step takes_more s e)
unfolding step
step-Inv t s (submitted size) i = submit-Inv t size s i
step-Inv t s (connect g) i = on_connect-Inv t g s i
step-Inv t s (drain_event g) i = on_drain-Inv t g s i
step-Inv t s (errored g) i = on_error-Inv g s i
step-Inv t s (ended g) i = disconnected-Inv g s i
step-Inv t s (received g bytes) i = on_data-Inv t g bytes s i
step-Inv t s (timed_out r) i = on_timeout-Inv r s i
step-Inv t s close_called i = close-Inv s i

pub steps-Inv :
    (takes_more : ℕ → Bool) (s : Sink) (es : List Event) → Inv s → Inv (steps takes_more s es)
unfolding steps
steps-Inv t s [] i = i
steps-Inv t s (e ∷ es) i = steps-Inv t (step t s e) es (step-Inv t s e i)
