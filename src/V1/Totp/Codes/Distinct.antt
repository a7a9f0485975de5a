-- ===== src/V1/Totp/Codes/Distinct.antt =====
-- What `generateBackupCodes` returns, for any settings.
use secure_mcp.Shared.{
  ℕ, ◌≤◌, ◌<◌, ◌≡◌, refl, sym, ap, ◌⊎◌, inl, inr, Bool, true, false, not, ◌&&◌, some, List, [], ◌∷◌,
  ◌++◌, arith, ltb, ltb→lt, Bool-cases, and_left, and_right, length, length-append, All, All-append,
  All-mono, In, subst, some-injective,
}
use secure_mcp.Http.Target.{same}
use secure_mcp.Http.Target.Sound.{same_refl}
use secure_mcp.V1.Totp.Codes.{
  BackupCodeConfig, has_code, bytes_to_backup_code, backup_codes_loop, generate_backup_codes,
  has_entropy,
}

abbrev pub IsDistinct : List (List ℕ) → Type 0
IsDistinct [] = Unit
IsDistinct (x ∷ xs) = ¬ (In x xs) × IsDistinct xs

In-append-cases : (x : List ℕ) (xs ys : List (List ℕ)) → In x (xs ++ ys) → In x xs ⊎ In x ys
In-append-cases x [] ys h = inr h
In-append-cases x (y ∷ xs) ys (inl e) = inl (inl e)
In-append-cases x (y ∷ xs) ys (inr h) = elim (In-append-cases x xs ys h) [
  | inl k ↦ inl (inr k)
  | inr k ↦ inr k
]

append-IsDistinct :
    (xs : List (List ℕ)) (c : List ℕ) → IsDistinct xs → ¬ (In c xs) → IsDistinct (xs ++ c ∷ [])
append-IsDistinct [] c h new = (λ k. k, tt)
append-IsDistinct (x ∷ xs) c (apart, h) new = (
  λ k. elim (In-append-cases x xs (c ∷ []) k) [
    | inl m ↦ apart m
    | inr (inl e) ↦ new (inl (sym e))
    | inr (inr m) ↦ absurd m
  ],
  append-IsDistinct xs c h (λ k. new (inr k)),
)

has_code-In : (used : List (List ℕ)) (c : List ℕ) → In c used → has_code used c ≡ true
has_code-In [] c h = absurd h
has_code-In (u ∷ used) c (inl e) = ground (arith, same_refl c, ap (λ x. same x c) e)
has_code-In (u ∷ used) c (inr h) = ground (arith, has_code-In used c h)

-- A code that the settings let pass.
abbrev pub IsEnough : BackupCodeConfig → List ℕ → Type 0
IsEnough config code = has_entropy config.min_entropy code ≡ true

-- The state of the loop.
record IsSound (config : BackupCodeConfig) (count : ℕ) (found used : List (List ℕ)) : Type 0 where
  pub bounded : length found ≤ count
  pub distinct : IsDistinct found
  pub enough : All (IsEnough config) found
  pub remembered : All (λ c. In c used) found

new_IsSound :
    (config : BackupCodeConfig) (count : ℕ) (found used : List (List ℕ)) (code : List ℕ)
    → IsSound config count found used
    → length found < count
    → has_code used code ≡ false
    → IsEnough config code
    → IsSound config count (found ++ code ∷ []) (code ∷ used)
new_IsSound config count found used code s room new ok = record {
  bounded = omega (arith, length-append found (code ∷ []), room);
  distinct =
      append-IsDistinct found code s.distinct
        (λ h. absurd (ground (arith, new, has_code-In used code (used_too found s.remembered h))));
  enough = All-append (IsEnough config) found (code ∷ []) s.enough (ok, tt);
  remembered =
      All-append (λ c. In c (code ∷ used)) found (code ∷ [])
        (All-mono (λ c. In c used) (λ c. In c (code ∷ used)) found (λ c h. inr h) s.remembered)
        (inl refl, tt);
}
  where
    used_too : (xs : List (List ℕ)) → All (λ c. In c used) xs → In code xs → In code used
    used_too [] a h = absurd h
    used_too (x ∷ xs) (here, a) (inl e) = subst (λ c. In c used) e here
    used_too (x ∷ xs) (here, a) (inr h) = used_too xs a h

finished :
    (config : BackupCodeConfig) (count : ℕ) (found used result : List (List ℕ))
    → IsSound config count found used
    → ltb (length found) count ≡ false
    → found ≡ result
    → (length result ≡ count) × (IsDistinct result × All (IsEnough config) result)
finished config count found used result s full e =
    subst (λ r. (length r ≡ count) × (IsDistinct r × All (IsEnough config) r)) e
      (all_found (length found) s.bounded full, (s.distinct, s.enough))
  where
    all_found : (n : ℕ) → n ≤ count → ltb n count ≡ false → n ≡ count
    all_found n h k = ground arith

looped :
    (config : BackupCodeConfig) (count : ℕ) (found used draws result : List (List ℕ))
    → IsSound config count found used
    → backup_codes_loop config count found used draws ≡ some result
    → (length result ≡ count) × (IsDistinct result × All (IsEnough config) result)
unfolding backup_codes_loop
looped config count found used [] result s h = elim (Bool-cases (ltb (length found) count)) [
  | inl e ↦ absurd (ground (arith, h, e))
  | inr e ↦
      finished config count found used result s e
        (some-injective found result (ground (arith, h, e)))
]
looped config count found used (bytes ∷ draws) result s h =
    let code = bytes_to_backup_code config bytes in
    elim (Bool-cases (ltb (length found) count)) [
      | inr e ↦
          finished config count found used result s e
            (some-injective found result (ground (arith, h, e)))
      | inl e ↦
          elim (Bool-cases (not (has_code used code) && has_entropy config.min_entropy code)) [
            | inr q ↦ looped config count found used draws result s (ground (arith, h, e, q))
            | inl q ↦
                looped config count (found ++ code ∷ []) (code ∷ used) draws result
                  (new_IsSound config count found used code s (ltb→lt (length found) count e)
                    (not_true (has_code used code)
                      (and_left _ (has_entropy config.min_entropy code) q))
                    (and_right (not (has_code used code)) (has_entropy config.min_entropy code) q))
                  (ground (arith, h, e, q))
          ]
    ]
  where
    not_true : (b : Bool) → not b ≡ true → b ≡ false
    not_true b h = ground arith

-- Whatever the settings and the random bytes are, the codes that are returned are as many as were asked
-- for, no two of them are the same, and each has the entropy that the settings ask for.
pub generate_backup_codes-IsDistinct :
    (config : BackupCodeConfig) (count : ℕ) (draws result : List (List ℕ))
    → generate_backup_codes config count draws ≡ some result
    → (length result ≡ count) × (IsDistinct result × All (IsEnough config) result)
unfolding generate_backup_codes
generate_backup_codes-IsDistinct config count draws result h =
    looped config count [] [] draws result
      (record { bounded = omega arith; distinct = tt; enough = tt; remembered = tt }) h
