-- ===== src/V1/Totp/Base32.antt =====
-- legacy/v1/src/auth/crypto/totp-generator.ts: `bytesToBase32`. `buffer` is a 32-bit integer of
-- JavaScript, kept as its bit pattern; it is never cleared, so its upper bits are shifted out.
pub mod RoundTrip
pub mod Decode
use secure_mcp.Shared.{
  ℕ, suc, ◌+◌, ◌-◌, ◌*◌, ◌/◌, ◌%◌, none, some, List, [], ◌∷◌, ◌++◌, ltb, if◌then◌else◌, get_elem?,
  codes,
}
use Prim.Native.Nat.{◌^◌, bit_and, bit_or}

abbrev pub base32_chars : List ℕ
base32_chars = codes "ABCDEFGHIJKLMNOPQRSTUVWXYZ234567"

-- `base32Chars[i]`, as it is appended: out of range the text is "undefined".
abbrev pub char_at : ℕ → List ℕ
char_at i = elim (get_elem? base32_chars i) [ none ↦ codes "undefined" | some c ↦ c ∷ [] ]

-- `x << n` and `x >> n` on the pattern; the right shift copies the sign.
abbrev pub shift_left : ℕ → ℕ → ℕ
shift_left x n = x * 2 ^ n % 2 ^ 32

abbrev pub shift_right : ℕ → ℕ → ℕ
shift_right x n = if ltb x (2 ^ 31) then x / 2 ^ n else x / 2 ^ n + (2 ^ 32 - 2 ^ (32 - n))

-- The inner loop: while at least five bits are left, the uppermost five are written. What is left is
-- returned with the text.
unfoldable pub emit : ℕ → ℕ → List ℕ × ℕ
emit buffer (suc (suc (suc (suc (suc n))))) =
    let (out, left) = emit buffer n in (char_at (bit_and (shift_right buffer n) 31) ++ out, left)
emit buffer n = ([], n)

unfoldable pub encode_from : ℕ → ℕ → List ℕ → List ℕ
unfolding emit
encode_from buffer bits_left [] =
    if ltb 0 bits_left then char_at (bit_and (shift_left buffer (5 - bits_left)) 31) else []
encode_from buffer bits_left (byte ∷ bytes) =
    let buffer' = bit_or (shift_left buffer 8) byte in
    let (out, left) = emit buffer' (bits_left + 8) in out ++ encode_from buffer' left bytes

unfoldable pub bytes_to_base32 : List ℕ → List ℕ
unfolding encode_from
bytes_to_base32 bytes = encode_from 0 0 bytes
