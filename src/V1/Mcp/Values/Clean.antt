-- ===== src/V1/Mcp/Values/Clean.antt =====
-- What `sanitizeData` leaves of a value.
use secure_mcp.Shared.{ℕ, ◌≡◌, refl, false, List, arith}
use secure_mcp.V1.Mcp.Values.{
  plain, item, object, array, text, number, boolean, Value, Items, Entries, undefined, null,
  boolean, number, text, array, object, end, item, none_left, entry, plain, is_dangerous,
  sanitize_data, sanitize_items, sanitize_entries,
}

-- At every depth: each text is one that `purify` gave, no object has a key that reaches its prototype,
-- and each inherits from `Object.prototype`.
unfoldable mutual
  pub IsClean : (List ℕ → List ℕ) → Value → Type 0
  IsClean purify undefined = Unit
  IsClean purify null = Unit
  IsClean purify (boolean b) = Unit
  IsClean purify (number n) = Unit
  IsClean purify (text s) = (t : List ℕ) × (s ≡ purify t)
  IsClean purify (array items) = AreClean purify items
  IsClean purify (object proto es) = (proto ≡ plain) × HasCleanEntries purify es

  pub AreClean : (List ℕ → List ℕ) → Items → Type 0
  AreClean purify end = Unit
  AreClean purify (item v vs) = IsClean purify v × AreClean purify vs

  pub HasCleanEntries : (List ℕ → List ℕ) → Entries → Type 0
  HasCleanEntries purify none_left = Unit
  HasCleanEntries purify (entry key v es) =
      (is_dangerous key ≡ false) × (IsClean purify v × HasCleanEntries purify es)

mutual
  unfolding IsClean sanitize_data

  pub sanitize_data-IsClean :
      (purify : List ℕ → List ℕ) (v : Value) → IsClean purify (sanitize_data purify v)
  sanitize_data-IsClean purify undefined = tt
  sanitize_data-IsClean purify null = tt
  sanitize_data-IsClean purify (boolean b) = tt
  sanitize_data-IsClean purify (number n) = tt
  sanitize_data-IsClean purify (text s) = (s, refl)
  sanitize_data-IsClean purify (array items) = sanitize_items-AreClean purify items
  sanitize_data-IsClean purify (object proto es) =
      (refl, sanitize_entries-HasCleanEntries purify es)

  sanitize_items-AreClean :
      (purify : List ℕ → List ℕ) (vs : Items) → AreClean purify (sanitize_items purify vs)
  sanitize_items-AreClean purify end = tt
  sanitize_items-AreClean purify (item v vs) =
      (sanitize_data-IsClean purify v, sanitize_items-AreClean purify vs)

  sanitize_entries-HasCleanEntries :
      (purify : List ℕ → List ℕ) (es : Entries)
      → HasCleanEntries purify (sanitize_entries purify es)
  sanitize_entries-HasCleanEntries purify none_left = tt
  sanitize_entries-HasCleanEntries purify (entry key v es) =
      ground (arith, sanitize_data-IsClean purify v, sanitize_entries-HasCleanEntries purify es)
