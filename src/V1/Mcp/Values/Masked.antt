-- ===== src/V1/Mcp/Values/Masked.antt =====
-- What `sanitizeOutput` leaves of a value.
use secure_mcp.Shared.{ℕ, ◌≡◌, refl, ◌⊎◌, true, false, List, arith, codes}
use secure_mcp.V1.Mcp.Values.{
  item, object, array, text, number, boolean, Value, Items, Entries, undefined, null, boolean,
  number, text, array, object, end, item, none_left, entry, is_sensitive, sanitize_output,
  output_items, output_entries, mask_text,
}

-- At every depth: an entry with a sensitive key holds three stars, and each other text is one whose
-- assignments have been masked.
unfoldable mutual
  pub IsMasked : Value → Type 0
  IsMasked undefined = Unit
  IsMasked null = Unit
  IsMasked (boolean b) = Unit
  IsMasked (number n) = Unit
  IsMasked (text s) = (t : List ℕ) × (s ≡ mask_text t)
  IsMasked (array items) = AreMasked items
  IsMasked (object proto es) = HasMaskedEntries es

  pub AreMasked : Items → Type 0
  AreMasked end = Unit
  AreMasked (item v vs) = IsMasked v × AreMasked vs

  pub HasMaskedEntries : Entries → Type 0
  HasMaskedEntries none_left = Unit
  HasMaskedEntries (entry key v es) =
      (((is_sensitive key ≡ true) × (v ≡ text (codes "***")))
        ⊎ ((is_sensitive key ≡ false) × IsMasked v))
      × HasMaskedEntries es

mutual
  unfolding IsMasked sanitize_output

  value-IsMasked : (v : Value) → IsMasked (sanitize_output v)
  value-IsMasked undefined = tt
  value-IsMasked null = tt
  value-IsMasked (boolean b) = tt
  value-IsMasked (number n) = tt
  value-IsMasked (text s) = (s, refl)
  value-IsMasked (array items) = items-AreMasked items
  value-IsMasked (object proto es) = entries-HasMaskedEntries es

  items-AreMasked : (vs : Items) → AreMasked (output_items vs)
  items-AreMasked end = tt
  items-AreMasked (item v vs) = (value-IsMasked v, items-AreMasked vs)

  entries-HasMaskedEntries : (es : Entries) → HasMaskedEntries (output_entries es)
  entries-HasMaskedEntries none_left = tt
  entries-HasMaskedEntries (entry key v es) =
      let rest = entries-HasMaskedEntries es in
      let here = value-IsMasked v in ground (arith, here, rest)

-- Nothing that is sent holds a value under a key with `password`, `token`, `secret`, `key` or `auth`
-- in it, in letters of any case and however deep the key stands: such an entry holds three stars.
-- Each other text has had its assignments masked.
sanitize_output-IsMasked : (v : Value) → IsMasked (sanitize_output v)
sanitize_output-IsMasked v = value-IsMasked v
