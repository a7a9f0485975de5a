-- ===== src/V1/Totp/Tests.antt =====
-- The examples of RFC 4648, backup codes with weaker settings, and the laws at these.
use secure_mcp.Shared.{
  ℕ, ◌+◌, ◌*◌, ◌/◌, ◌≡◌, refl, true, false, none, some, List, [], ◌∷◌, arith, length, codes,
}
use secure_mcp.V1.Totp.Base32.{bytes_to_base32}
use secure_mcp.V1.Totp.Base32.Decode.{base32_to_bytes, base32_to_bytes-bytes_to_base32}
use secure_mcp.V1.Totp.Codes.{
  BackupCodeConfig, backup_config, generate_backup_codes, validate_secret_entropy,
  has_repeated_patterns, moderate, insufficient_entropy, characters,
}
use secure_mcp.V1.Totp.Codes.Never.{generate_backup_codes-none}

encoded :
    (bytes_to_base32 (codes "foobar") ≡ codes "MZXW6YTBOI")
    × (bytes_to_base32 (255 ∷ 255 ∷ 255 ∷ 255 ∷ 255 ∷ 0 ∷ []) ≡ codes "77777777AA")
unfolding bytes_to_base32
encoded = (refl, refl)

base32_to_bytes-bytes_to_base32_example :
    (base32_to_bytes (bytes_to_base32 (255 ∷ 1 ∷ [])) ≡ 255 ∷ 1 ∷ [])
    × (length (bytes_to_base32 (255 ∷ 1 ∷ [])) ≡ (8 * 2 + 4) / 5)
base32_to_bytes-bytes_to_base32_example =
    base32_to_bytes-bytes_to_base32 (255 ∷ 1 ∷ []) (omega arith, (omega arith, tt))

abbrev weak_config : BackupCodeConfig
weak_config = record { length_of_code = 2; count = 2; charset = codes "AB"; min_entropy = 2 }

abbrev draws : List (List ℕ)
draws = (0 ∷ 0 ∷ []) ∷ (0 ∷ 1 ∷ []) ∷ (2 ∷ 3 ∷ []) ∷ (5 ∷ 4 ∷ []) ∷ []

backup_codes : generate_backup_codes weak_config 2 draws ≡ some (codes "AB" ∷ codes "BA" ∷ [])
unfolding generate_backup_codes
backup_codes = refl

generate_backup_codes-none_example : generate_backup_codes backup_config 10 draws ≡ none
generate_backup_codes-none_example =
    generate_backup_codes-none 10 draws (omega arith)
      (omega arith, (omega arith, (omega arith, (omega arith, tt))))

surrogates : characters (0xd83d ∷ 0xde00 ∷ 0xd83d ∷ []) ≡ 0x1f600 ∷ 0xd83d ∷ []
unfolding characters
surrogates = refl

secrets :
    ((validate_secret_entropy (codes "ABCDEFGHIJKLMNOPQRSTUVWXYZ")).is_valid ≡ true)
    × ((validate_secret_entropy (codes "ABCDEFGHIJKLMNOP")).issues ≡ insufficient_entropy ∷ [])
    × ((validate_secret_entropy (codes "ABCDEFGHIJKLMNOP")).strength ≡ moderate)
unfolding validate_secret_entropy
secrets = (refl, refl, refl)

repeated :
    (has_repeated_patterns (codes "XABYAB") ≡ true) × (has_repeated_patterns (codes "AAAB") ≡ false)
unfolding has_repeated_patterns
repeated = (refl, refl)
