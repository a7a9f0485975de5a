-- ===== src/Startup/Cli/Exit.antt =====
-- When the process ends well.
use secure_mcp.Shared.{
  ℕ, ◌≡◌, refl, sym, ap, ◌∙◌, ◌⊎◌, inl, inr, Bool, true, false, not, ◌&&◌, none, some, List, [],
  ◌∷◌, ◌++◌, arith, ltb, Bool-cases, any, subst, some-injective,
}
use secure_mcp.Startup.Cli.Stopping.{
  Process, waiting, Event, stop_called, close_failed, forced, protocol_error, close_done, exit_code,
  is_waiting, alive, step, steps, started,
}

-- Whether some event is of a kind.
abbrev pub is_protocol_error : Event → Bool
is_protocol_error protocol_error = true
is_protocol_error _ = false

abbrev pub is_clean_close : Event → Bool
is_clean_close (close_done remaining healthy) = not (ltb 0 remaining) && healthy
is_clean_close _ = false

abbrev pub is_stop : Event → Bool
is_stop stop_called = true
is_stop _ = false

steps-exited :
    (p : Process) (code : ℕ) (es : List Event)
    → p.exited ≡ some code
    → (steps p es).exited ≡ some code
unfolding steps step
steps-exited p code [] h = h
steps-exited p code (e ∷ es) h = steps-exited (step p e) code es (rw (step, h) h)

-- A process that ended well had been asked to stop, closed with nothing left and a healthy audit, and
-- met no protocol error before that.
pub record EndedWell (p : Process) (es : List Event) : Type 0 where
  pub before : List Event
  pub after : List Event
  pub remaining : ℕ
  pub split : es ≡ before ++ close_done remaining true ∷ after
  pub nothing_left : remaining ≡ 0
  pub no_protocol_error : (p.protocol_failed ≡ false) × (any is_protocol_error before ≡ false)
  pub asked : (is_waiting p.closing ≡ true) ⊎ (any is_stop before ≡ true)

EndedWell-later :
    (p q : Process) (e : Event) (es : List Event)
    → q.protocol_failed ≡ p.protocol_failed
    → is_protocol_error e ≡ false
    → (is_waiting q.closing ≡ true → (is_waiting p.closing ≡ true) ⊎ (is_stop e ≡ true))
    → EndedWell q es
    → EndedWell p (e ∷ es)
EndedWell-later p q e es same quiet was w = record {
  before = e ∷ w.before;
  after = w.after;
  remaining = w.remaining;
  split = ap (λ xs. e ∷ xs) w.split;
  nothing_left = w.nothing_left;
  no_protocol_error =
      (sym same ∙ w.no_protocol_error.0, ground (arith, quiet, w.no_protocol_error.1));
  asked = asked_before w.asked;
}
  where
    asked_before :
        (is_waiting q.closing ≡ true) ⊎ (any is_stop w.before ≡ true)
        → (is_waiting p.closing ≡ true) ⊎ (any is_stop (e ∷ w.before) ≡ true)
    asked_before a = ground (arith, a, was)

step-alive : (p : Process) (e : Event) → p.exited ≡ none → step p e ≡ alive p e
unfolding step
step-alive p e h = rw h refl

-- The process has ended with another code.
exited_otherwise :
    (p : Process) (code : ℕ) (es : List Event)
    → p.exited ≡ some code
    → (steps p es).exited ≡ some 0
    → code ≡ 0
exited_otherwise p code es h k = some-injective code 0 (sym (steps-exited p code es h) ∙ k)

alive-EndedWell :
    (p : Process) (e : Event) (es : List Event)
    → ((q : Process) → q.exited ≡ none → (steps q es).exited ≡ some 0 → EndedWell q es)
    → p.exited ≡ none
    → (steps (alive p e) es).exited ≡ some 0
    → EndedWell p (e ∷ es)
alive-EndedWell p stop_called es ih h k =
    EndedWell-later p (record p { closing = waiting }) stop_called es refl refl (λ _. inr refl)
      (ih (record p { closing = waiting }) h k)
alive-EndedWell p protocol_error es ih h k =
    absurd (cc ((ih (record p { protocol_failed = true }) h k).no_protocol_error.0))
alive-EndedWell p forced es ih h k = elim (Bool-cases (is_waiting p.closing)) [
  | inl w ↦
      absurd (omega (arith, exited_otherwise (record p { exited = some 1 }) 1 es refl (rw w at k)))
  | inr w ↦ EndedWell-later p p forced es refl refl (λ x. inl x) (ih p h (rw w at k))
]
alive-EndedWell p close_failed es ih h k = elim (Bool-cases (is_waiting p.closing)) [
  | inl w ↦
      absurd (omega (arith, exited_otherwise (record p { exited = some 1 }) 1 es refl (rw w at k)))
  | inr w ↦ EndedWell-later p p close_failed es refl refl (λ x. inl x) (ih p h (rw w at k))
]
alive-EndedWell p (close_done remaining healthy) es ih h k =
    elim (Bool-cases (is_waiting p.closing)) [
      | inl w ↦
          let code = exit_code remaining p.protocol_failed healthy in
          let zero : code ≡ 0 =
            exited_otherwise (record p { exited = some code }) code es refl (rw w at k) in
          record {
            before = [];
            after = es;
            remaining = remaining;
            split = ap (λ b. close_done remaining b ∷ es) (ground (arith, zero));
            nothing_left = ground (arith, zero);
            no_protocol_error = (ground (arith, zero), refl);
            asked = inl w;
          }
      | inr w ↦
          EndedWell-later p p (close_done remaining healthy) es refl refl (λ x. inl x)
            (ih p h (rw w at k))
    ]

steps-EndedWell :
    (p : Process) (es : List Event)
    → p.exited ≡ none
    → (steps p es).exited ≡ some 0
    → EndedWell p es
unfolding steps
steps-EndedWell p [] h k = absurd (cc)
steps-EndedWell p (e ∷ es) h k =
    alive-EndedWell p e es (λ q. steps-EndedWell q es) h
      (subst (λ q. (steps q es).exited ≡ some 0) (step-alive p e h) k)

-- If the process ends with code 0, it had been asked to stop, then the server closed with nothing left
-- running and a healthy audit, and no protocol error came before that.
started-EndedWell : (es : List Event) → (steps started es).exited ≡ some 0 → EndedWell started es
unfolding started
started-EndedWell es k = steps-EndedWell started es refl k
