-- ===== src/Collector/Numbers.antt =====
-- Every accepted record has the next number, so no two are confused.
use secure_mcp.Shared.{
  ℕ, zero, suc, ◌+◌, ◌≡◌, refl, sym, ap, ◌∙◌, inl, inr, Bool, true, ◌||◌, List, [], ◌∷◌, ◌++◌,
  arith, ltb, leb, Bool-cases, length, length-append, drop, subst,
}
use secure_mcp.Collector.{
  close_called, timed_out, received, ended, errored, drain_event, connect, enqueue, submitted, step,
  open_socket, close, steps, on_data, submit, on_timeout, on_error, Event, disconnected, on_drain,
  on_connect, acknowledge, flush, fail, flush_from, Sink,
}

-- The records 0, 1, …, n - 1.
abbrev pub upto : ℕ → List ℕ
upto zero = []
upto (suc n) = upto n ++ n ∷ []

abbrev pub Numbered : List ℕ → Type 0
Numbered rs = rs ≡ upto (length rs)

Numbered-append : (rs : List ℕ) → Numbered rs → Numbered (rs ++ length rs ∷ [])
Numbered-append rs h =
    let e : length (rs ++ length rs ∷ []) ≡ suc (length rs) =
      omega (arith, length-append rs (length rs ∷ [])) in
    rw e (ap (λ xs. xs ++ length rs ∷ []) h)

accepted-flush_from :
    (takes_more : ℕ → Bool) (rs : List ℕ) (s : Sink)
    → (flush_from takes_more rs s).accepted ≡ s.accepted
unfolding flush_from
accepted-flush_from t [] s = refl
accepted-flush_from t (r ∷ rs) s = ground (
  arith,
  accepted-flush_from t rs
      (record s { written = s.written ++ r ∷ []; sent = s.sent + 1; writable = t r }),
)

accepted-flush : (takes_more : ℕ → Bool) (s : Sink) → (flush takes_more s).accepted ≡ s.accepted
unfolding flush
accepted-flush t s = ground (arith, accepted-flush_from t (drop s.sent s.pending) s)

accepted-open_socket : (s : Sink) → (open_socket s).accepted ≡ s.accepted
unfolding open_socket
accepted-open_socket s = ground arith

submit-Numbered :
    (takes_more : ℕ → Bool) (size : ℕ) (s : Sink)
    → Numbered s.accepted
    → Numbered (submit takes_more size s).0.accepted
unfolding submit
submit-Numbered t size s h =
    elim (Bool-cases (s.failed || (s.closed || leb 1024 (length s.pending)))) [
      | inl full ↦ simp full h
      | inr room ↦ elim (Bool-cases (ltb 4096 size)) [
        | inl long ↦ simp (room, long) h
        | inr fits ↦
            simp (room, fits)
              (subst Numbered
                (sym (
                  accepted-flush t (open_socket (enqueue (length s.accepted) s))
                  ∙ accepted-open_socket (enqueue (length s.accepted) s)))
                (Numbered-append s.accepted h))
      ]
    ]

step-Numbered :
    (takes_more : ℕ → Bool) (s : Sink) (e : Event)
    → Numbered s.accepted
    → Numbered (step takes_more s e).accepted
unfolding step on_connect on_drain on_error disconnected on_data on_timeout close fail
step-Numbered t s (submitted size) h = submit-Numbered t size s h
step-Numbered t s (connect g) h =
    ground (arith, h, accepted-flush t (record s { connected = true; writable = true }))
step-Numbered t s (drain_event g) h =
    ground (arith, h, accepted-flush t (record s { writable = true }))
step-Numbered t s (errored g) h = ground (arith, h)
step-Numbered t s (ended g) h = ground (arith, h)
step-Numbered t s (received g bytes) h =
    ground (arith, h, accepted-flush t (acknowledge (length bytes) s))
step-Numbered t s (timed_out r) h = ground (arith, h)
step-Numbered t s close_called h = ground (arith, h)

pub steps-Numbered :
    (takes_more : ℕ → Bool) (s : Sink) (es : List Event)
    → Numbered s.accepted
    → Numbered (steps takes_more s es).accepted
unfolding steps
steps-Numbered t s [] h = h
steps-Numbered t s (e ∷ es) h = steps-Numbered t (step t s e) es (step-Numbered t s e h)
