-- ===== src/Collector/Latch.antt =====
-- What a failed sink does, and what an acknowledgement may resolve.
use secure_mcp.Shared.{
  ℕ, ◌+◌, ◌≤◌, ◌≡◌, refl, ◌∙◌, ◌⊎◌, inl, inr, Bool, true, false, not, List, [], ◌∷◌, ◌++◌, arith,
  ◌==◌, length, any, take, drop, All, drop-nil, append-nil,
}
use secure_mcp.Collector.{
  Sink, initial, fail, flush_from, flush, on_connect, on_drain, acknowledge, on_data, on_error,
  disconnected, on_timeout, submit, close, Event, submitted, connect, drain_event, errored, ended,
  received, timed_out, close_called, step, steps,
}
use secure_mcp.Collector.Books.{Failed, Inv, initial-Inv, flush_idle}
use secure_mcp.Collector.Events.{step-Inv, steps-Inv}

abbrev Silent : Sink → Sink → Type 0
Silent s u = (u.failed ≡ true) × (u.written ≡ s.written) × (u.resolved ≡ s.resolved)

step-Silent :
    (takes_more : ℕ → Bool) (s : Sink) (e : Event) → Failed s → Silent s (step takes_more s e)
unfolding step submit on_connect on_drain on_error disconnected on_data on_timeout close fail
step-Silent t s (submitted size) f = ground (arith, f.broken)
step-Silent t s (connect g) f =
    ground (
      arith,
      f.broken,
      flush_idle t (record s { connected = true; writable = true }) f.none_pending,
    )
step-Silent t s (drain_event g) f =
    ground (arith, f.broken, flush_idle t (record s { writable = true }) f.none_pending)
step-Silent t s (errored g) f = ground (arith, f.broken)
step-Silent t s (ended g) f = ground (arith, f.broken)
step-Silent t s (received g bytes) f = ground (
  arith,
  f.broken,
  f.none_sent,
  append-nil s.resolved,
  f.none_pending,
  flush_idle t (acknowledge (length bytes) s) (rw f.none_pending (drop-nil (length bytes))),
)
step-Silent t s (timed_out r) f = ground (arith, f.broken)
step-Silent t s close_called f = ground (arith, f.broken)

Failed-Inv : (s : Sink) → Inv s → s.failed ≡ true → Failed s
Failed-Inv s (inl a) e = absurd (cc a.working)
Failed-Inv s (inr f) e = f

steps-Silent :
    (takes_more : ℕ → Bool) (s : Sink) (es : List Event)
    → Inv s
    → s.failed ≡ true
    → Silent s (steps takes_more s es)
unfolding steps
steps-Silent t s [] i e = (e, refl, refl)
steps-Silent t s (x ∷ es) i e =
    let (broken, w, r) = step-Silent t s x (Failed-Inv s i e) in
    let (broken', w', r') = steps-Silent t (step t s x) es (step-Inv t s x i) broken in
    (broken', w' ∙ w, r' ∙ r)

-- Failure is final: from then on the sink writes nothing, resolves nothing and refuses every record,
-- whatever the connections do.
pub failed_final :
    (takes_more : ℕ → Bool) (es fs : List Event) (size : ℕ)
    → let s = steps takes_more initial es in
      let u = steps takes_more s fs in
      s.failed ≡ true
      → (u.written ≡ s.written) × (u.resolved ≡ s.resolved) × ((submit takes_more size u).1 ≡ false)
failed_final t es fs size e =
    let (broken, w, r) =
      steps-Silent t (steps t initial es) fs (steps-Inv t initial es initial-Inv) e in
    (w, r, unfold submit in rw broken refl)

resolved-flush_from :
    (takes_more : ℕ → Bool) (rs : List ℕ) (s : Sink)
    → (flush_from takes_more rs s).resolved ≡ s.resolved
unfolding flush_from
resolved-flush_from t [] s = refl
resolved-flush_from t (r ∷ rs) s = ground (
  arith,
  resolved-flush_from t rs
      (record s { written = s.written ++ r ∷ []; sent = s.sent + 1; writable = t r }),
)

resolved-flush : (takes_more : ℕ → Bool) (s : Sink) → (flush takes_more s).resolved ≡ s.resolved
unfolding flush
resolved-flush t s = ground (arith, resolved-flush_from t (drop s.sent s.pending) s)

All-any : (bytes : List ℕ) → any (λ b. not (b == 6)) bytes ≡ false → All (λ b. b ≡ 6) bytes
All-any [] h = tt
All-any (b ∷ bs) h = (ground arith, All-any bs (ground arith))

-- The data of a connection resolves either nothing, or, if they are ACK bytes only and no more than
-- the records sent, exactly the oldest pending records, one for each byte.
pub on_data-resolved :
    (takes_more : ℕ → Bool) (g : ℕ) (bytes : List ℕ) (s : Sink)
    → let u = on_data takes_more g bytes s in
      (u.resolved ≡ s.resolved)
      ⊎ All (λ b. b ≡ 6) bytes
        × (length bytes ≤ s.sent)
        × (u.resolved ≡ s.resolved ++ take (length bytes) s.pending)
unfolding on_data
on_data-resolved t g bytes s =
    ground (arith, All-any bytes, resolved-flush t (acknowledge (length bytes) s))
