-- ===== src/V1/Totp/Codes/Pairs.antt =====
-- The check for repeated patterns.
use secure_mcp.Shared.{
  ℕ, zero, suc, ◌+◌, ◌-◌, ◌*◌, ◌/◌, ◌≤◌, ◌≡◌, refl, ap, ◌⊎◌, inl, inr, Bool, true, false, ◌&&◌,
  ◌||◌, List, [], ◌∷◌, arith, leb, ◌==◌, leb→le, le→leb, Bool-eq_of_iff, and_intro, and_left,
  and_right, length, take, drop, drop-add, subst,
}
use secure_mcp.Http.Target.{starts_with}
use native.Mathlib.Nat.{suc-add}
use secure_mcp.V1.Totp.Codes.{occurs, repeated_at, repeated_from, has_repeated_patterns}

or_left : (a b : Bool) → a ≡ true → (a || b) ≡ true
or_left a b h = ground arith

or_right : (a b : Bool) → b ≡ true → (a || b) ≡ true
or_right a b h = ground arith

or_cases : (a b : Bool) → (a || b) ≡ true → (a ≡ true) ⊎ (b ≡ true)
or_cases true b h = inl refl
or_cases false b h = inr h

starts_with-take : (n : ℕ) (p s : List ℕ) → starts_with p s ≡ true → starts_with (take n p) s ≡ true
starts_with-take zero p s h = refl
starts_with-take (suc n) [] s h = refl
starts_with-take (suc n) (x ∷ p) [] h = absurd (cc)
starts_with-take (suc n) (x ∷ p) (c ∷ s) h =
    and_intro (and_left (x == c) (starts_with p s) h)
      (starts_with-take n p s (and_right (x == c) (starts_with p s) h))

occurs-take : (n : ℕ) (p s : List ℕ) → occurs p s ≡ true → occurs (take n p) s ≡ true
occurs-take n p [] h = starts_with-take n p [] h
occurs-take n p (c ∷ cs) h = elim (or_cases (starts_with p (c ∷ cs)) (occurs p cs) h) [
  | inl e ↦ or_left _ _ (starts_with-take n p (c ∷ cs) e)
  | inr e ↦ or_right _ _ (occurs-take n p cs e)
]

occurs-drop : (n : ℕ) (p s : List ℕ) → occurs p (drop n s) ≡ true → occurs p s ≡ true
occurs-drop zero p s h = h
occurs-drop (suc n) p [] h = h
occurs-drop (suc n) p (c ∷ cs) h =
    or_right (starts_with p (c ∷ cs)) (occurs p cs) (occurs-drop n p cs h)

take-take : (m n : ℕ) (x : List ℕ) → take m (take (m + n) x) ≡ take m x
take-take zero n x = refl
take-take (suc m) n [] = simp suc-add
take-take (suc m) n (c ∷ x) = simp suc-add (ap (λ y. c ∷ y) (take-take m n x))

-- A pattern of two or more units that repeats begins with two that repeat.
first_two :
    (n : ℕ) (x : List ℕ)
    → occurs (take (2 + n) x) (drop (2 + n) x) ≡ true
    → occurs (take 2 x) (drop 2 x) ≡ true
first_two n x h =
    subst (λ p. occurs p (drop 2 x) ≡ true) (take-take 2 n x)
      (occurs-take 2 (take (2 + n) x) (drop 2 x) (
        occurs-drop n (take (2 + n) x) (drop 2 x)
          (subst (λ y. occurs (take (2 + n) x) y ≡ true) (drop-add 2 n x) h)))

longer : (n l : ℕ) → leb ((2 + n) * 2) l ≡ true → leb 4 l ≡ true
longer n l h = le→leb 4 l (omega (arith, leb→le ((2 + n) * 2) l h))

repeated_at-pairs : (n : ℕ) (s : List ℕ) → repeated_at (2 + n) s ≡ true → repeated_at 2 s ≡ true
unfolding repeated_at
repeated_at-pairs n [] h = h
repeated_at-pairs n (c ∷ cs) h =
    let long = leb ((2 + n) * 2) (suc (length cs)) in
    let found = occurs (take (2 + n) (c ∷ cs)) (drop (2 + n) (c ∷ cs)) in
    let long_two = leb 4 (suc (length cs)) in
    let found_two = occurs (take 2 (c ∷ cs)) (drop 2 (c ∷ cs)) in
    elim (or_cases (long && found) (repeated_at (2 + n) cs) h) [
      | inl e ↦ or_left (long_two && found_two) (repeated_at 2 cs) (
          and_intro (longer n (suc (length cs)) (and_left long found e))
            (first_two n (c ∷ cs) (and_right long found e)))
      | inr e ↦ or_right (long_two && found_two) (repeated_at 2 cs) (repeated_at-pairs n cs e)
    ]

repeated_from-pairs :
    (n k : ℕ) (s : List ℕ) → repeated_from (2 + n) k s ≡ true → repeated_at 2 s ≡ true
unfolding repeated_from
repeated_from-pairs n zero s h = absurd (cc)
repeated_from-pairs n (suc k) s h =
    elim (or_cases (repeated_at (2 + n) s) (repeated_from (2 + n + 1) k s) h) [
      | inl e ↦ repeated_at-pairs n s e
      | inr e ↦
          repeated_from-pairs (n + 1) k s (subst (λ m. repeated_from m k s ≡ true) (omega arith) e)
    ]

repeated_at-long : (s : List ℕ) → repeated_at 2 s ≡ true → 4 ≤ length s
unfolding repeated_at
repeated_at-long [] h = absurd (cc)
repeated_at-long (c ∷ cs) h =
    let long = leb 4 (suc (length cs)) in
    let found = occurs (take 2 (c ∷ cs)) (drop 2 (c ∷ cs)) in
    elim (or_cases (long && found) (repeated_at 2 cs) h) [
      | inl e ↦ leb→le 4 (suc (length cs)) (and_left long found e)
      | inr e ↦ omega (arith, repeated_at-long cs e)
    ]

repeated_from-first :
    (k : ℕ) (s : List ℕ) → 1 ≤ k → repeated_at 2 s ≡ true → repeated_from 2 k s ≡ true
unfolding repeated_from
repeated_from-first zero s h e = absurd (omega arith)
repeated_from-first (suc k) s h e = or_left (repeated_at 2 s) (repeated_from 3 k s) e

-- The check over all lengths finds a repeated pattern exactly when some two adjacent units stand again
-- behind themselves: the lengths above two add nothing.
has_repeated_patterns-pairs : (s : List ℕ) → has_repeated_patterns s ≡ repeated_at 2 s
unfolding has_repeated_patterns repeated_from
has_repeated_patterns-pairs s =
    Bool-eq_of_iff (has_repeated_patterns s) (repeated_at 2 s) (λ h. repeated_from-pairs 0 _ s h)
      (λ h. repeated_from-first (length s / 2 - 1) s (omega (arith, repeated_at-long s h)) h)
