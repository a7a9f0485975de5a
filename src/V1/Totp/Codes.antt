-- ===== src/V1/Totp/Codes.antt =====
-- legacy/v1/src/auth/crypto/totp-generator.ts: the entropy, the backup codes and the checks of a secret.
-- A text is its UTF-16 code units. `Math.log2` is exact here: `calculateEntropy` adds
-- `count * log2(length / count)` for each character, which is at least `n` when the length to the power
-- of the number of characters is at least `2 ^ n` times the product of each `count ^ count`.
pub mod Distinct
pub mod Never
pub mod Pairs
use secure_mcp.Shared.{
  ℕ, zero, suc, ◌+◌, ◌-◌, ◌*◌, ◌/◌, ◌%◌, Bool, true, false, not, ◌&&◌, ◌||◌, Option, none, some,
  List, [], ◌∷◌, ◌++◌, ltb, leb, ◌==◌, if◌then◌else◌, length, all, any, take, drop, get_elem?,
  codes, is_upper, tally,
}
use Prim.Native.Nat.{◌^◌}
use secure_mcp.Http.Target.{same, starts_with}
use secure_mcp.V1.Totp.Base32.{bytes_to_base32}

abbrev pub is_high : ℕ → Bool
is_high c = leb 0xd800 c && leb c 0xdbff

abbrev pub is_low : ℕ → Bool
is_low c = leb 0xdc00 c && leb c 0xdfff

-- `for (const char of str)`: a pair of surrogates is one character.
unfoldable pub characters : List ℕ → List ℕ
characters [] = []
characters (a ∷ []) = a ∷ []
characters (a ∷ b ∷ cs) = elim (is_high a && is_low b) [
  | true ↦ (0x10000 + (a - 0xd800) * 0x400 + (b - 0xdc00)) ∷ characters cs
  | false ↦ a ∷ characters (b ∷ cs)
]

-- `charCounts[char]`
abbrev pub char_count : List ℕ → ℕ → ℕ
char_count text c = tally (λ d. d == c) text

-- The product of each `count ^ count`: a factor `count` for each occurrence.
unfoldable pub counts_product : List ℕ → List ℕ → ℕ
counts_product text [] = 1
counts_product text (c ∷ cs) = char_count text c * counts_product text cs

-- `calculateEntropy(text) >= bits`
unfoldable pub has_entropy : ℕ → List ℕ → Bool
unfolding characters counts_product
has_entropy bits text =
    let cs = characters text in leb (2 ^ bits * counts_product cs cs) (length text ^ length cs)

pub record BackupCodeConfig : Type 0 where
  pub length_of_code : ℕ
  pub count : ℕ
  pub charset : List ℕ
  pub min_entropy : ℕ

abbrev pub backup_config : BackupCodeConfig
backup_config = record {
  length_of_code = 8;
  count = 10;
  charset = codes "0123456789ABCDEFGHIJKLMNOPQRSTUVWXYZ";
  min_entropy = 40;
}

abbrev pub validate_backup_code_entropy : BackupCodeConfig → List ℕ → Bool
validate_backup_code_entropy config code = has_entropy config.min_entropy code

-- `bytes[i % bytes.length] % charset.length` as an index; what is out of range is "undefined".
abbrev pub code_char : BackupCodeConfig → List ℕ → ℕ → List ℕ
code_char config bytes i = elim (get_elem? bytes (i % length bytes)) [
  | none ↦ codes "undefined"
  | some b ↦ elim (get_elem? config.charset (b % length config.charset)) [
    | none ↦ codes "undefined"
    | some c ↦ c ∷ []
  ]
]

-- The loop of `bytesToBackupCode`, with the number of characters that are left.
unfoldable pub code_from : BackupCodeConfig → List ℕ → ℕ → ℕ → List ℕ
code_from config bytes i zero = []
code_from config bytes i (suc n) = code_char config bytes i ++ code_from config bytes (i + 1) n

unfoldable pub bytes_to_backup_code : BackupCodeConfig → List ℕ → List ℕ
unfolding code_from
bytes_to_backup_code config bytes = code_from config bytes 0 config.length_of_code

abbrev pub has_code : List (List ℕ) → List ℕ → Bool
has_code used code = any (λ c. same c code) used

-- The loop of `generateBackupCodes` on what `randomBytes` gives in turn; `none` is a loop that still
-- runs when these are used up.
unfoldable pub backup_codes_loop :
    BackupCodeConfig → ℕ → List (List ℕ) → List (List ℕ) → List (List ℕ) → Option (List (List ℕ))
unfolding bytes_to_backup_code has_entropy
backup_codes_loop config count found used [] = if ltb (length found) count then none else some found
backup_codes_loop config count found used (bytes ∷ draws) = elim (ltb (length found) count) [
  | false ↦ some found
  | true ↦
      let code = bytes_to_backup_code config bytes in
      elim (not (has_code used code) && validate_backup_code_entropy config code) [
        | true ↦ backup_codes_loop config count (found ++ code ∷ []) (code ∷ used) draws
        | false ↦ backup_codes_loop config count found used draws
      ]
]

unfoldable pub generate_backup_codes : BackupCodeConfig → ℕ → List (List ℕ) → Option (List (List ℕ))
unfolding backup_codes_loop
generate_backup_codes config count draws = backup_codes_loop config count [] [] draws

pub data Issue : Type 0 where
  too_short invalid_base32 insufficient_entropy repeated_patterns : Issue

pub data Strength : Type 0 where
  weak moderate strong very_strong : Strength

pub record SecretValidation : Type 0 where
  pub is_valid : Bool
  pub strength : Strength
  pub issues : List Issue

-- `text.indexOf(pattern) !== -1`
abbrev pub occurs : List ℕ → List ℕ → Bool
occurs pattern [] = starts_with pattern []
occurs pattern (c ∷ cs) = starts_with pattern (c ∷ cs) || occurs pattern cs

-- The inner loop for one length: `i` runs to the end, and the pattern at `i` is looked for behind itself.
unfoldable pub repeated_at : ℕ → List ℕ → Bool
repeated_at len [] = false
repeated_at len (c ∷ cs) =
    (leb (len * 2) (suc (length cs)) && occurs (take len (c ∷ cs)) (drop len (c ∷ cs)))
    || repeated_at len cs

-- The outer loop, with the number of lengths that are left: 2, 3, … up to half the text.
unfoldable pub repeated_from : ℕ → ℕ → List ℕ → Bool
unfolding repeated_at
repeated_from len zero secret = false
repeated_from len (suc n) secret = repeated_at len secret || repeated_from (len + 1) n secret

unfoldable pub has_repeated_patterns : List ℕ → Bool
unfolding repeated_from
has_repeated_patterns secret = repeated_from 2 (length secret / 2 - 1) secret

-- `/^[A-Z2-7]+$/`
abbrev pub is_base32 : List ℕ → Bool
is_base32 s = leb 1 (length s) && all (λ c. is_upper c || (leb b'2' c && leb c b'7')) s

abbrev pub note : Bool → Issue → List Issue
note true issue = issue ∷ []
note false issue = []

unfoldable pub validate_secret_entropy : List ℕ → SecretValidation
unfolding has_entropy has_repeated_patterns
validate_secret_entropy secret =
    let issues =
      note (ltb (length secret) 16) too_short
      ++ (note (not (is_base32 secret)) invalid_base32
          ++ (note (not (has_entropy 80 secret)) insufficient_entropy
              ++ note (has_repeated_patterns secret) repeated_patterns)) in
    record {
      is_valid = length issues == 0;
      strength =
          if not (has_entropy 60 secret)
          then weak
          else if not (has_entropy 80 secret)
          then moderate
          else if not (has_entropy 120 secret)
          then strong
          else very_strong;
      issues = issues;
    }

-- `generateSecret`, which calls itself until a secret is valid; `none` is a run that still draws.
unfoldable pub generate_secret : List (List ℕ) → Option (List ℕ)
unfolding bytes_to_base32 validate_secret_entropy
generate_secret [] = none
generate_secret (bytes ∷ draws) =
    let secret = bytes_to_base32 bytes in
    elim (validate_secret_entropy secret).is_valid [
      | true ↦ some secret
      | false ↦ generate_secret draws
    ]
