-- ===== src/Startup/NodeVersion.antt =====
-- src/node-version.ts: `assertSupportedNode`, on UTF-16 code units.
use secure_mcp.Shared.{
  ℕ, ◌+◌, ◌-◌, ◌*◌, Bool, false, not, ◌&&◌, ◌||◌, List, [], ◌∷◌, ltb, leb, ◌==◌, if◌then◌else◌, all,
  is_digit,
}

-- The parts of a text between the dots.
abbrev pub put : ℕ → List (List ℕ) → List (List ℕ)
put c [] = (c ∷ []) ∷ []
put c (w ∷ ws) = (c ∷ w) ∷ ws

abbrev pub dotted : List ℕ → List (List ℕ)
dotted [] = [] ∷ []
dotted (c ∷ cs) = if c == b'.' then [] ∷ dotted cs else put c (dotted cs)

-- `0|[1-9]\d*`
abbrev pub is_numeral : List ℕ → Bool
is_numeral [] = false
is_numeral (c ∷ []) = is_digit c
is_numeral (c ∷ cs) = is_digit c && (not (c == b'0') && all is_digit cs)

-- `Number(part)`
abbrev pub number_from : ℕ → List ℕ → ℕ
number_from n [] = n
number_from n (c ∷ cs) = number_from (n * 10 + (c - b'0')) cs

abbrev pub number : List ℕ → ℕ
number = number_from 0

unfoldable pub is_supported : ℕ → ℕ → ℕ → Bool
is_supported major minor patch = major == 24 && (ltb 22 minor || (minor == 22 && leb 1 patch))

abbrev pub parts_supported : List (List ℕ) → Bool
parts_supported (a ∷ b ∷ c ∷ []) =
    is_numeral a
    && (is_numeral b && (is_numeral c && is_supported (number a) (number b) (number c)))
parts_supported _ = false

-- Whether the check returns, and does not throw UnsupportedRuntimeError.
unfoldable pub assert_supported_node : List ℕ → Bool
unfolding is_supported
assert_supported_node version = parts_supported (dotted version)
