-- ===== src/V1/Totp/Codes/Never.antt =====
-- The entropy of backup codes with the settings of the class.
use secure_mcp.Shared.{
  ℕ, zero, suc, ◌+◌, ◌*◌, ◌%◌, ◌≤◌, ◌<◌, ◌≡◌, refl, ap, ◌∙◌, inl, inr, true, false, ◌&&◌, none,
  some, List, [], ◌∷◌, arith, ltb, leb, ltb→lt, length, all, get_elem?, All, all-All, In,
  All-get_elem?, ap₂,
}
use Prim.Native.Nat.{◌^◌}
use native.Mathlib.Nat.{one-le-mul, mod-lt}
use secure_mcp.V1.Totp.Codes.{
  characters, is_high, is_low, char_count, counts_product, has_entropy, backup_config, code_char,
  code_from, bytes_to_backup_code, backup_codes_loop, generate_backup_codes,
  validate_backup_code_entropy,
}

characters-IsAscii : (s : List ℕ) → All (λ c. c < 128) s → characters s ≡ s
unfolding characters
characters-IsAscii [] h = refl
characters-IsAscii (a ∷ []) h = refl
characters-IsAscii (a ∷ b ∷ cs) (small, h) =
    let rest = characters-IsAscii (b ∷ cs) h in
    let single : (is_high a && is_low b) ≡ false = ground (arith, small) in
    ground (arith, single, rest)

-- Each character is counted at least once.
counts_product_pos :
    (text s : List ℕ) → All (λ c. 1 ≤ char_count text c) s → 1 ≤ counts_product text s
unfolding counts_product
counts_product_pos text [] h = omega arith
counts_product_pos text (c ∷ cs) (here, h) = one-le-mul here (counts_product_pos text cs h)

char_count_pos : (s : List ℕ) (c : ℕ) → In c s → 1 ≤ char_count s c
char_count_pos [] c h = absurd h
char_count_pos (d ∷ s) c (inl e) = ground (arith, e)
char_count_pos (d ∷ s) c (inr h) = ground (arith, char_count_pos s c h)

all_counted : (s t : List ℕ) → ((c : ℕ) → In c t → In c s) → All (λ c. 1 ≤ char_count s c) t
all_counted s [] f = tt
all_counted s (c ∷ t) f =
    (char_count_pos s c (f c (inl refl)), all_counted s t (λ d h. f d (inr h)))

get_elem?-some : (s : List ℕ) (i : ℕ) → i < length s → (c : ℕ) × (get_elem? s i ≡ some c)
get_elem?-some [] i h = absurd (omega arith)
get_elem?-some (c ∷ s) zero h = (c, refl)
get_elem?-some (c ∷ s) (suc i) h = get_elem?-some s i (omega (arith, h))

charset_ascii : All (λ c. c < 128) backup_config.charset
charset_ascii = all_intro backup_config.charset refl
  where
    all_intro : (s : List ℕ) → all (λ c. ltb c 128) s ≡ true → All (λ c. c < 128) s
    all_intro s h = all-All (λ c. c < 128) (λ c. ltb c 128) s (λ c e. ltb→lt c 128 e) h

mod_small : (b : ℕ) → b % 36 < 36
mod_small b = omega arith

code_char-ascii :
    (bytes : List ℕ) (i : ℕ)
    → 1 ≤ length bytes
    → (c : ℕ) × ((code_char backup_config bytes i ≡ c ∷ []) × (c < 128))
code_char-ascii bytes i h =
    let (b, found) = get_elem?-some bytes (i % length bytes) (mod-lt (i) h) in
    let (c, chosen) = get_elem?-some backup_config.charset (b % 36) (mod_small b) in
    (
      c,
      (
        ground (arith, found, chosen),
        All-get_elem? (λ c. c < 128) backup_config.charset (b % 36) c charset_ascii chosen,
      ),
    )

code_from-ascii :
    (bytes : List ℕ) (i n : ℕ)
    → 1 ≤ length bytes
    → (length (code_from backup_config bytes i n) ≡ n)
      × All (λ c. c < 128) (code_from backup_config bytes i n)
unfolding code_from
code_from-ascii bytes i zero h = (refl, tt)
code_from-ascii bytes i (suc n) h =
    let (c, (single, small)) = code_char-ascii bytes i h in
    let (sized, rest) = code_from-ascii bytes (i + 1) n h in rw single (ap suc sized, (small, rest))

exceeds : (p : ℕ) → 1 ≤ p → leb (2 ^ 40 * p) (8 ^ 8) ≡ false
exceeds p h = ground arith

-- Eight characters have at most 24 bits.
eight_refused : (s : List ℕ) → length s ≡ 8 → All (λ c. c < 128) s → has_entropy 40 s ≡ false
unfolding has_entropy
eight_refused s sized ascii =
    let plain = characters-IsAscii s ascii in
    let positive : 1 ≤ counts_product s s = counts_product_pos s s (all_counted s s (λ c h. h)) in
    ap₂ (λ cs n. leb (2 ^ 40 * counts_product cs cs) (n ^ length cs)) plain sized
    ∙ ap (λ n. leb (2 ^ 40 * counts_product s s) (8 ^ n)) sized
    ∙ exceeds (counts_product s s) positive

code_refused :
    (bytes : List ℕ)
    → 1 ≤ length bytes
    → validate_backup_code_entropy backup_config (bytes_to_backup_code backup_config bytes) ≡ false
unfolding bytes_to_backup_code
code_refused bytes h =
    let (sized, ascii) = code_from-ascii bytes 0 8 h in
    eight_refused (code_from backup_config bytes 0 8) sized ascii

never_found :
    (count : ℕ) (used draws : List (List ℕ))
    → 1 ≤ count
    → All (λ bytes. 1 ≤ length bytes) draws
    → backup_codes_loop backup_config count [] used draws ≡ none
unfolding backup_codes_loop
never_found count used [] h full = ground (arith, h)
never_found count used (bytes ∷ draws) h (here, full) =
    let rest = never_found count used draws h full in
    ground (arith, h, code_refused bytes here, rest)

-- With the settings of the class no backup code is ever found: a code of eight characters has at most 24
-- bits of entropy, and 40 are asked for. So for a count of one or more the loop still runs, whatever
-- bytes `randomBytes` has given, if it gave one at least each time.
pub generate_backup_codes-none :
    (count : ℕ) (draws : List (List ℕ))
    → 1 ≤ count
    → All (λ bytes. 1 ≤ length bytes) draws
    → generate_backup_codes backup_config count draws ≡ none
unfolding generate_backup_codes
generate_backup_codes-none count draws h full = never_found count [] draws h full
