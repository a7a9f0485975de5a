-- ===== src/V1/RateLimiter/Window.antt =====
-- The sliding window that the limiter is meant to be.
use secure_mcp.Shared.{
  ℕ, suc, ◌+◌, ◌≤◌, ◌<◌, ◌≡◌, refl, sym, ap, ◌∙◌, ◌⊎◌, inl, inr, Bool, true, false, ◌&&◌, List, [],
  ◌∷◌, ◌++◌, arith, ltb, leb, ◌==◌, if◌then◌else◌, ltb→lt, leb→le, Bool-cases, length, all, any,
  keep, length-append, length-keep-le, All, tally, tally-append, subst,
}
use secure_mcp.V1.Redis.SortedSets.{is_live}

-- The window over distinct milliseconds: the times of the requests that it let through and that are
-- still live. Requests in the same millisecond share one entry.
abbrev pub with_time : ℕ → List ℕ → List ℕ
with_time now live = if any (λ t. t == now) live then live else live ++ now ∷ []

unfoldable pub admit : ℕ → ℕ → ℕ → List ℕ → Bool × List ℕ
admit window most now log =
    let live = keep (is_live window now) log in
    if ltb (length live) most then (true, with_time now live) else (false, live)

-- Whether each request of a sequence is let through.
unfoldable pub admit_all : ℕ → ℕ → List ℕ → List ℕ → List Bool
unfolding admit
admit_all window most [] log = []
admit_all window most (now ∷ nows) log =
    let (ok, log') = admit window most now log in ok ∷ admit_all window most nows log'

-- The times of those that are let through.
abbrev pub let_through : List ℕ → List Bool → List ℕ
let_through (t ∷ ts) (true ∷ bs) = t ∷ let_through ts bs
let_through (t ∷ ts) (false ∷ bs) = let_through ts bs
let_through _ _ = []

-- Times that go up, from a first one on.
abbrev pub IsOrdered : ℕ → List ℕ → Type 0
IsOrdered from [] = Unit
IsOrdered from (t ∷ ts) = (from ≤ t) × IsOrdered (suc t) ts

-- The window of the given size that ends with a time.
abbrev pub in_window : ℕ → ℕ → ℕ → Bool
in_window window until t = leb t until && ltb until (t + window)

tally-le-length : (p : ℕ → Bool) (xs : List ℕ) → tally p xs ≤ length xs
tally-le-length p [] = omega arith
tally-le-length p (x ∷ xs) = ground (arith, tally-le-length p xs)

-- Requests after the window do not count in it.
later_none :
    (window until from : ℕ) (ts : List ℕ) (bs : List Bool)
    → until < from
    → IsOrdered from ts
    → tally (in_window window until) (let_through ts bs) ≡ 0
later_none window until from [] bs h o = refl
later_none window until from (t ∷ ts) [] h o = refl
later_none window until from (t ∷ ts) (true ∷ bs) h (le, o) =
    ground (arith, h, le, later_none window until (suc t) ts bs (omega (arith, h, le)) o)
later_none window until from (t ∷ ts) (false ∷ bs) h (le, o) =
    later_none window until (suc t) ts bs (omega (arith, h, le)) o

-- An entry that is removed at a time is in no window that ends then or later.
tally-live :
    (window now until : ℕ) (log : List ℕ)
    → now ≤ until
    → tally (in_window window until) (keep (is_live window now) log)
      ≡ tally (in_window window until) log
tally-live window now until [] h = refl
tally-live window now until (t ∷ log) h = ground (arith, h, tally-live window now until log h)

not_leb : (a b : ℕ) → leb a b ≡ false → b < a
not_leb a b h = ground arith

le_self : (a : ℕ) → a ≤ a
le_self a = omega arith

one_more : (log : List ℕ) (now most : ℕ) → length log < most → length (log ++ now ∷ []) ≤ most
one_more log now most h = omega (arith, h, length-append log (now ∷ []))

-- A property of both branches.
pub if_cases {ℓ} :
    {A : Type 0} (P : A → Type ℓ) (b : Bool) (x y : A)
    → (b ≡ true → P x)
    → (b ≡ false → P y)
    → P (if b then x else y)
if_cases P true x y f g = f refl
if_cases P false x y f g = g refl

-- A time after all those of a log is not among them.
not_among :
    (now from : ℕ) (log : List ℕ)
    → from ≤ now
    → All (λ t. t < from) log
    → any (λ t. t == now) log ≡ false
not_among now from [] h below = refl
not_among now from (t ∷ log) h (lt, below) = ground (arith, h, lt, not_among now from log h below)

pub keep_in : (q : ℕ → Bool) (t : ℕ) (log : List ℕ) → q t ≡ true → keep q (t ∷ log) ≡ t ∷ keep q log
keep_in q t log h = ap (λ b. elim b [ true ↦ t ∷ keep q log | false ↦ keep q log ]) h

pub keep_out : (q : ℕ → Bool) (t : ℕ) (log : List ℕ) → q t ≡ false → keep q (t ∷ log) ≡ keep q log
keep_out q t log h = ap (λ b. elim b [ true ↦ t ∷ keep q log | false ↦ keep q log ]) h

keep-below :
    (q : ℕ → Bool) (from : ℕ) (log : List ℕ)
    → All (λ t. t < from) log
    → All (λ t. t < from) (keep q log)
keep-below q from [] below = below
keep-below q from (t ∷ log) (lt, below) = elim (Bool-cases (q t)) [
  | inl stays ↦
      subst (All (λ u. u < from)) (sym (keep_in q t log stays)) (lt, keep-below q from log below)
  | inr goes ↦
      subst (All (λ u. u < from)) (sym (keep_out q t log goes)) (keep-below q from log below)
]

below_later :
    (from now : ℕ) (log : List ℕ)
    → from ≤ now
    → All (λ t. t < from) log
    → All (λ t. t < suc now) log
below_later from now [] h below = below
below_later from now (t ∷ log) h (lt, below) =
    (omega (arith, h, lt), below_later from now log h below)

below_added :
    (now : ℕ) (log : List ℕ) → All (λ t. t < suc now) log → All (λ t. t < suc now) (log ++ now ∷ [])
below_added now [] below = (omega arith, tt)
below_added now (t ∷ log) (lt, below) = (lt, below_added now log below)

-- Requests up to a later time fit in the window, with those of the log.
bounded_from :
    (window most until from : ℕ) (nows log : List ℕ)
    → length log ≤ most
    → All (λ t. t < from) log
    → IsOrdered from nows
    → tally (in_window window until) log
        + tally (in_window window until) (let_through nows (admit_all window most nows log))
      ≤ most
unfolding admit_all
bounded_from window most until from [] log small below o =
    omega (arith, small, tally-le-length (in_window window until) log)
bounded_from window most until from (now ∷ nows) log small below (le, o) =
    let p = in_window window until in
    let live = keep (is_live window now) log in
    let below' = keep-below (is_live window now) from log below in
    let later = below_later from now live le below' in
    elim (Bool-cases (leb now until)) [
      | inr after ↦ omega (
        arith,
        small,
        tally-le-length p log,
        later_none window until now (now ∷ nows) (admit_all window most (now ∷ nows) log)
            (not_leb now until after) (le_self now, o),
      )
      | inl before ↦
          let same_count = tally-live window now until log (leb→le now until before) in
          rw (not_among now from live le below') (
            if_cases
              (λ (r : Bool × List ℕ).
                tally p log
                  + tally p (let_through (now ∷ nows) (r.0 ∷ admit_all window most nows r.1))
                ≤ most)
              (ltb (length live) most) (true, live ++ now ∷ []) (false, live)
              (λ room. omega (
                arith,
                same_count,
                tally-append p live (now ∷ []),
                bounded_from window most until (suc now) nows (live ++ now ∷ [])
                    (one_more live now most (ltb→lt (length live) most room))
                    (below_added now live later) o,
              ))
              (λ full. omega (
                arith,
                same_count,
                bounded_from window most until (suc now) nows live
                    (omega (arith, small, length-keep-le (is_live window now) log)) later o,
              )))
    ]

-- A window of a size and a maximum lets no more requests through than the maximum in any stretch of its
-- size, when the times go up.
pub tally-admit_all-le :
    (window most until from : ℕ) (nows : List ℕ)
    → IsOrdered from nows
    → tally (in_window window until) (let_through nows (admit_all window most nows [])) ≤ most
tally-admit_all-le window most until from nows o =
    omega (arith, bounded_from window most until from nows [] (omega arith) tt o)

eq_self : (n : ℕ) → (n == n) ≡ true
eq_self n = ground arith

live_now : (window now : ℕ) → 1 ≤ window → ltb now (now + window) ≡ true
live_now window now h = ground (arith, h)

under : (n most : ℕ) → n ≤ 1 → 2 ≤ most → ltb n most ≡ true
under n most h two = ground (arith, h, two)

-- A second request in a millisecond adds nothing.
admit_again :
    (window most now : ℕ)
    → 1 ≤ window
    → 2 ≤ most
    → admit window most now (now ∷ []) ≡ (true, now ∷ [])
unfolding admit
admit_again window most now positive two =
    ap
      (λ (live : List ℕ).
        if ltb (length live) most then (true, with_time now live) else (false, live))
      (keep_in (is_live window now) now [] (live_now window now positive))
    ∙ rw (under 1 most (omega arith) two, eq_self now) refl

-- However many requests come in one millisecond, a window with a maximum above 1 that is empty, or holds
-- just that millisecond, lets them all through.
pub admit_all-burst :
    (window most now : ℕ) (nows log : List ℕ)
    → 1 ≤ window
    → 2 ≤ most
    → All (λ t. t ≡ now) nows
    → (log ≡ []) ⊎ (log ≡ now ∷ [])
    → all (λ ok. ok) (admit_all window most nows log) ≡ true
unfolding admit_all
admit_all-burst window most now [] log positive two same_time start = refl
admit_all-burst window most now (t ∷ ts) log positive two (e, same_time) start =
    let rest = admit_all-burst window most now ts (now ∷ []) positive two same_time (inr refl) in
    elim start [
      | inl empty ↦ rw (empty, e, under 0 most (omega arith) two) rest
      | inr one ↦
          rw (one, e)
            (ap (λ (r : Bool × List ℕ). r.0 && all (λ ok. ok) (admit_all window most ts r.1))
                (admit_again window most now positive two)
              ∙ rest)
    ]
