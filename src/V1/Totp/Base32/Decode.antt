-- ===== src/V1/Totp/Base32/Decode.antt =====
-- The way back from the text of `bytesToBase32` to the bytes.
use secure_mcp.Shared.{
  ℕ, zero, suc, ◌+◌, ◌-◌, ◌*◌, ◌/◌, ◌%◌, ◌<◌, ◌≡◌, refl, ap, ◌∙◌, List, [], ◌∷◌, ◌++◌, arith,
  length, All, append-nil, ap₂,
}
use Prim.Native.Nat.{◌^◌}
use secure_mcp.V1.Totp.Base32.{bytes_to_base32}
use secure_mcp.V1.Totp.Base32.RoundTrip.{value32, value256, encode-Reads}

-- The lowest `n` bytes of a number in front of a text, and what is above them.
abbrev lowest : ℕ → ℕ → List ℕ → ℕ × List ℕ
lowest zero v rest = (v, rest)
lowest (suc n) v rest = lowest n (v / 256) (v % 256 ∷ rest)

abbrev one_lower : ℕ × List ℕ → ℕ × List ℕ
one_lower (v, rest) = (v / 256, v % 256 ∷ rest)

lowest-suc : (n v : ℕ) (rest : List ℕ) → lowest (suc n) v rest ≡ one_lower (lowest n v rest)
lowest-suc zero v rest = refl
lowest-suc (suc n) v rest = lowest-suc n (v / 256) (v % 256 ∷ rest)

lowest-value256 :
    (bs : List ℕ) (acc : ℕ) (rest : List ℕ)
    → All (λ b. b < 256) bs
    → lowest (length bs) (value256 acc bs) rest ≡ (acc, bs ++ rest)
lowest-value256 [] acc rest h = refl
lowest-value256 (b ∷ bs) acc rest (byte, h) =
    lowest-suc (length bs) (value256 (acc * 256 + b) bs) rest
    ∙ ap one_lower (lowest-value256 bs (acc * 256 + b) rest h)
    ∙ ap₂ (λ x y. (x, y ∷ bs ++ rest)) (omega (arith, byte)) (omega (arith, byte))

-- A decoder: the number in base 32, less the zero bits at its end, as bytes.
abbrev pub bytes_in : ℕ → ℕ
bytes_in characters = 5 * characters / 8

unfoldable pub base32_to_bytes : List ℕ → List ℕ
base32_to_bytes text =
    let n = bytes_in (length text) in
    (lowest n (value32 0 text / 2 ^ (5 * length text - 8 * n)) []).1

shifted_back : (v pad : ℕ) → pad < 5 → v * 2 ^ pad / 2 ^ pad ≡ v
shifted_back v zero h = omega arith
shifted_back v (suc zero) h = omega arith
shifted_back v (suc (suc zero)) h = omega arith
shifted_back v (suc (suc (suc zero))) h = omega arith
shifted_back v (suc (suc (suc (suc zero)))) h = omega arith
shifted_back v (suc (suc (suc (suc (suc n))))) h = absurd (omega arith)

-- The encoder loses nothing: its text is decoded to the bytes that it was given, although the 32-bit
-- buffer overflows; and the text has as many characters as the bits need.
pub base32_to_bytes-bytes_to_base32 :
    (bytes : List ℕ)
    → All (λ b. b < 256) bytes
    → (base32_to_bytes (bytes_to_base32 bytes) ≡ bytes)
      × (length (bytes_to_base32 bytes) ≡ (8 * length bytes + 4) / 5)
unfolding base32_to_bytes bytes_to_base32
base32_to_bytes-bytes_to_base32 bytes h =
    let r = encode-Reads 0 0 0 bytes (omega arith) h in
    let text = bytes_to_base32 bytes in
    let n : bytes_in (length text) ≡ length bytes = omega (arith, r.sized, r.small) in
    let p : 5 * length text - 8 * bytes_in (length text) ≡ r.pad =
      omega (arith, r.sized, r.small) in
    let v : value32 0 text / 2 ^ (5 * length text - 8 * bytes_in (length text)) ≡ value256 0 bytes =
      ap₂ (λ x y. x / 2 ^ y) r.read p ∙ shifted_back (value256 0 bytes) r.pad r.small in
    (
      ap₂ (λ x y. (lowest x y []).1) n v
          ∙ ap (λ x. x.1) (lowest-value256 bytes 0 [] h)
          ∙ append-nil bytes,
      omega (arith, r.sized, r.small),
    )
