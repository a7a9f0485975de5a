-- ===== src/Collector/Books.antt =====
-- The books of socketAuditSink: an invariant that every event keeps.
use secure_mcp.Shared.{
  ℕ, ◌+◌, ◌-◌, ◌≤◌, ◌≡◌, refl, ap, ◌∙◌, ◌⊎◌, inl, inr, Bool, true, false, List, [], ◌∷◌, ◌++◌,
  arith, Bool-cases, length, take, drop, take-add, take-append_drop, length-drop, drop-nil,
  drop-add, append-nil, append_assoc,
}
use secure_mcp.Collector.{initial, acknowledge, flush, fail, flush_from, Sink}

-- A sink that works: what is not resolved is pending, and what is sent is a front part of that.
pub record Alive (s : Sink) : Type 0 where
  pub working : s.failed ≡ false
  pub none_rejected : s.rejected ≡ []
  pub sent_le : s.sent ≤ length s.pending
  pub bounded : length s.pending ≤ 1024
  pub order : s.accepted ≡ s.resolved ++ s.pending
  pub wire : s.written ≡ s.resolved ++ take s.sent s.pending

-- A sink that has failed: what was not resolved is rejected, and some front part of that was sent.
pub record Failed (s : Sink) : Type 0 where
  pub broken : s.failed ≡ true
  pub none_pending : s.pending ≡ []
  pub none_sent : s.sent ≡ 0
  pub order : s.accepted ≡ s.resolved ++ s.rejected
  pub on_wire : ℕ
  pub wire : s.written ≡ s.resolved ++ take on_wire s.rejected

fail-Failed : (s : Sink) → Alive s → Failed (fail s)
unfolding fail
fail-Failed s a = record {
  broken = refl;
  none_pending = refl;
  none_sent = refl;
  order = ground (arith, a.order, a.none_rejected);
  on_wire = s.sent;
  wire = ground (arith, a.wire, a.none_rejected);
}

flush_from-Alive :
    (takes_more : ℕ → Bool) (rs : List ℕ) (s : Sink)
    → drop s.sent s.pending ≡ rs
    → Alive s
    → Alive (flush_from takes_more rs s)
unfolding flush_from
flush_from-Alive t [] s e a = a
flush_from-Alive t (r ∷ rs) s e a = elim (Bool-cases s.writable) [
  | inr blocked ↦ simp blocked a
  | inl open' ↦ simp open' (
      flush_from-Alive t rs _ (rw (drop-add s.sent 1 s.pending, e)) (record {
        working = a.working;
        none_rejected = a.none_rejected;
        sent_le = omega (arith, length-drop s.sent s.pending, ap length e);
        bounded = a.bounded;
        order = a.order;
        wire =
            rw (take-add s.sent 1 s.pending, e, a.wire)
              (append_assoc s.resolved (take s.sent s.pending) (r ∷ []));
      }))
]

flush-Alive : (takes_more : ℕ → Bool) (s : Sink) → Alive s → Alive (flush takes_more s)
unfolding flush
flush-Alive t s a = ground (arith, a, flush_from-Alive t (drop s.sent s.pending) s refl a)

flush_from-nil :
    (takes_more : ℕ → Bool) (rs : List ℕ) (s : Sink) → rs ≡ [] → flush_from takes_more rs s ≡ s
unfolding flush_from
flush_from-nil t [] s e = refl
flush_from-nil t (r ∷ rs) s e = absurd (cc)

-- A sink with nothing pending has nothing to flush.
pub flush_idle : (takes_more : ℕ → Bool) (s : Sink) → s.pending ≡ [] → flush takes_more s ≡ s
unfolding flush
flush_idle t s e =
    ground (arith, flush_from-nil t (drop s.sent s.pending) s (rw e (drop-nil s.sent)))

abbrev pub Inv : Sink → Type 0
Inv s = Alive s ⊎ Failed s

pub flush-Inv : (takes_more : ℕ → Bool) (s : Sink) → Inv s → Inv (flush takes_more s)
flush-Inv t s (inl a) = inl (flush-Alive t s a)
flush-Inv t s (inr f) = inr (rw (flush_idle t s f.none_pending) f)

pub fail-Inv : (s : Sink) → Inv s → Inv (fail s)
unfolding fail
fail-Inv s (inl a) = inr (fail-Failed s a)
fail-Inv s (inr f) = inr (record {
  broken = refl;
  none_pending = refl;
  none_sent = refl;
  order = rw (f.none_pending, append-nil) f.order;
  on_wire = f.on_wire;
  wire = rw (f.none_pending, append-nil) f.wire;
})

-- What a change of the other fields leaves alone.
abbrev pub SameBooks : Sink → Sink → Type 0
SameBooks s u =
    (u.failed ≡ s.failed)
    × (u.rejected ≡ s.rejected)
    × (u.sent ≡ s.sent)
    × (u.pending ≡ s.pending)
    × (u.accepted ≡ s.accepted)
    × (u.resolved ≡ s.resolved)
    × (u.written ≡ s.written)

pub SameBooks-Inv : (s u : Sink) → SameBooks s u → Inv s → Inv u
SameBooks-Inv s u (a, b, c, d, e, f, g) (inl i) = inl (record {
  working = a ∙ i.working;
  none_rejected = b ∙ i.none_rejected;
  sent_le = omega (arith, c, ap length d, i.sent_le);
  bounded = omega (arith, ap length d, i.bounded);
  order = rw (e, f, d) i.order;
  wire = rw (g, f, c, d) i.wire;
})
SameBooks-Inv s u (a, b, c, d, e, f, g) (inr i) = inr (record {
  broken = a ∙ i.broken;
  none_pending = d ∙ i.none_pending;
  none_sent = c ∙ i.none_sent;
  order = rw (e, f, b) i.order;
  on_wire = i.on_wire;
  wire = rw (g, f, b) i.wire;
})

acknowledge-Alive : (n : ℕ) (s : Sink) → n ≤ s.sent → Alive s → Alive (acknowledge n s)
acknowledge-Alive n s h a = record {
  working = a.working;
  none_rejected = a.none_rejected;
  sent_le = omega (arith, length-drop n s.pending, a.sent_le);
  bounded = omega (arith, length-drop n s.pending, a.bounded);
  order = rw (append_assoc, take-append_drop n s.pending) a.order;
  wire =
      let e : n + (s.sent - n) ≡ s.sent = omega arith in
      rw (append_assoc, ← take-add n (s.sent - n) s.pending, e) a.wire;
}

-- A failed sink has sent nothing, so an acknowledgement covers nothing.
pub acknowledge-Inv : (n : ℕ) (s : Sink) → n ≤ s.sent → Inv s → Inv (acknowledge n s)
acknowledge-Inv n s h (inl a) = inl (acknowledge-Alive n s h a)
acknowledge-Inv n s h (inr f) =
    let e : n ≡ 0 = omega (arith, f.none_sent) in
    inr (record {
      broken = f.broken;
      none_pending = rw (e, f.none_pending) refl;
      none_sent = omega (arith, f.none_sent);
      order = rw (e, append-nil) f.order;
      on_wire = f.on_wire;
      wire = rw (e, append-nil) f.wire;
    })

pub initial-Inv : Inv initial
unfolding initial
initial-Inv = inl (record {
  working = refl;
  none_rejected = refl;
  sent_le = omega arith;
  bounded = omega arith;
  order = refl;
  wire = refl;
})
