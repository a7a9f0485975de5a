-- ===== src/Shared/Bits.antt =====
-- The bit operations that the code uses, at variables: a mask of five ones, and `|` below a zero byte.
use Prim.Native.Nat.{
  ℕ, zero, suc, ◌+◌, ◌-◌, ◌*◌, ◌/◌, ◌%◌, ◌≤◌, ◌<◌, min, max, bit_and, bit_or, digits,
  bit_and-bitwise, bit_or-bitwise,
}
use mathlib.Core.Path.{◌≡◌, refl, ap, ◌∙◌}
use native.Mathlib.Omega.{arith}

-- Fuel above the first number is not used: one unit more changes nothing, and so do several.
module _ (rest : ℕ → ℕ) (joined : ℕ → ℕ → ℕ) where
  one_more :
      (fuel x y : ℕ) → x ≤ fuel → digits rest joined (suc fuel) x y ≡ digits rest joined fuel x y
  one_more (suc fuel) (suc x) y enough =
      omega (arith, one_more fuel (suc x / 2) (y / 2) (omega arith))
  one_more (suc fuel) zero y enough = refl
  one_more zero (suc x) y enough = absurd (omega arith)
  one_more zero zero y enough = refl

  several_more :
      (extra fuel x y : ℕ)
      → x ≤ fuel
      → digits rest joined (extra + fuel) x y ≡ digits rest joined fuel x y
  several_more zero fuel x y enough = ap (λ n. digits rest joined n x y) (omega arith)
  several_more (suc extra) fuel x y enough =
      let next : suc extra + fuel ≡ suc (extra + fuel) = omega arith in
      ap (λ n. digits rest joined n x y) next
      ∙ one_more (extra + fuel) x y (omega arith)
      ∙ several_more extra fuel x y enough

  -- The digits above the lowest one, with the fuel that the native operation leaves them.
  upper_digits :
      (x y : ℕ) → digits rest joined x (suc x / 2) y ≡ digits rest joined (suc x / 2) (suc x / 2) y
  upper_digits x y =
      let split : x ≡ x - suc x / 2 + suc x / 2 = omega arith in
      ap (λ n. digits rest joined n (suc x / 2) y) split
      ∙ several_more (x - suc x / 2) (suc x / 2) (suc x / 2) y (omega arith)

-- The laws for the lowest digit, and what is left when there are no digits.
and_step : (x y : ℕ) → bit_and x y ≡ bit_and (x / 2) (y / 2) * 2 + min (x % 2) (y % 2)
and_step (suc x) y = omega (
  arith,
  upper_digits (λ n. zero) min x (y / 2),
  bit_and-bitwise (suc x / 2) (y / 2),
  bit_and-bitwise (suc x) y,
)
and_step zero y = omega (arith, bit_and-bitwise 0 (y / 2), bit_and-bitwise 0 y)

or_step : (x y : ℕ) → bit_or x y ≡ bit_or (x / 2) (y / 2) * 2 + max (x % 2) (y % 2)
or_step (suc x) y = omega (
  arith,
  upper_digits (λ n. n) max x (y / 2),
  bit_or-bitwise (suc x / 2) (y / 2),
  bit_or-bitwise (suc x) y,
)
or_step zero y = omega (arith, bit_or-bitwise 0 (y / 2), bit_or-bitwise 0 y)

and_zero : (n a : ℕ) → a ≤ n → bit_and a 0 ≡ 0
and_zero n zero h = bit_and-bitwise 0 0
and_zero zero (suc a) h = absurd (omega arith)
and_zero (suc n) (suc a) h = omega (arith, and_step (suc a) 0, and_zero n (suc a / 2) (omega arith))

or_zero : (n a : ℕ) → a ≤ n → bit_or a 0 ≡ a
or_zero n zero h = bit_or-bitwise 0 0
or_zero zero (suc a) h = absurd (omega arith)
or_zero (suc n) (suc a) h = omega (arith, or_step (suc a) 0, or_zero n (suc a / 2) (omega arith))

pub bit_and_31 : (a : ℕ) → bit_and a 31 ≡ a % 32
bit_and_31 a = omega (
  arith,
  and_step a 31,
  and_step (a / 2) 15,
  and_step (a / 2 / 2) 7,
  and_step (a / 2 / 2 / 2) 3,
  and_step (a / 2 / 2 / 2 / 2) 1,
  and_zero (a / 2 / 2 / 2 / 2 / 2) (a / 2 / 2 / 2 / 2 / 2) (omega arith),
)

or_double : (a c b : ℕ) → c ≡ a * 2 → bit_or c b ≡ bit_or a (b / 2) * 2 + b % 2
or_double a c b e =
    let half : c / 2 ≡ a = omega (arith, e) in
    omega (arith, e, or_step c b, ap (λ x. bit_or x (b / 2)) half)

-- A number with a zero byte below takes a byte there.
pub bit_or_byte : (a b : ℕ) → b < 256 → bit_or (a * 256) b ≡ a * 256 + b
bit_or_byte a b h =
    let gone : b / 2 / 2 / 2 / 2 / 2 / 2 / 2 / 2 ≡ 0 = omega (arith, h) in
    omega (
      arith,
      or_double (a * 128) (a * 256) b (omega arith),
      or_double (a * 64) (a * 128) (b / 2) (omega arith),
      or_double (a * 32) (a * 64) (b / 2 / 2) (omega arith),
      or_double (a * 16) (a * 32) (b / 2 / 2 / 2) (omega arith),
      or_double (a * 8) (a * 16) (b / 2 / 2 / 2 / 2) (omega arith),
      or_double (a * 4) (a * 8) (b / 2 / 2 / 2 / 2 / 2) (omega arith),
      or_double (a * 2) (a * 4) (b / 2 / 2 / 2 / 2 / 2 / 2) (omega arith),
      or_double a (a * 2) (b / 2 / 2 / 2 / 2 / 2 / 2 / 2) refl,
      ap (bit_or a) gone,
      or_zero a a (omega arith),
    )
