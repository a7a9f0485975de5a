-- ===== src/Config/Schema/Urls.antt =====
-- The URLs that the schema lets through.
use secure_mcp.Shared.{
  String, ◌≡◌, refl, ◌⊎◌, inl, inr, true, false, ◌&&◌, ◌||◌, Option, none, some, List, [], ◌∷◌,
  arith, str_eq, eq_iff, Bool-cases, and_left, and_right, In, includes, includes_iff, is_empty,
}
use secure_mcp.Config.Schema.{Url, is_safe_url, is_url}

abbrev pub loopback : List String
loopback = "127.0.0.1" ∷ "[::1]" ∷ "localhost" ∷ []

-- No credentials, query or fragment, and https, or http on loopback.
abbrev pub IsSafe : Url → Type 0
IsSafe u =
    (is_empty u.username ≡ true)
    × (is_empty u.password ≡ true)
    × (is_empty u.hash ≡ true)
    × (is_empty u.search ≡ true)
    × ((u.protocol ≡ "https:") ⊎ ((u.protocol ≡ "http:") × In u.hostname loopback))

either_protocol :
    (u : Url)
    → (str_eq u.protocol "https:" || (str_eq u.protocol "http:" && includes loopback u.hostname))
      ≡ true
    → (u.protocol ≡ "https:") ⊎ ((u.protocol ≡ "http:") × In u.hostname loopback)
either_protocol u h = elim (Bool-cases (str_eq u.protocol "https:")) [
  | inl secure ↦ inl ((eq_iff u.protocol "https:").0 secure)
  | inr other ↦
      let plain : (str_eq u.protocol "http:" && includes loopback u.hostname) ≡ true =
        ground (arith, other, h) in
      inr (
        (eq_iff u.protocol "http:").0 (and_left _ _ plain),
        (includes_iff loopback u.hostname).0 (and_right _ _ plain),
      )
]

safe : (u : Url) → is_safe_url u ≡ true → IsSafe u
safe u h =
    let clean = and_left _ _ h in
    let rest = and_right _ _ clean in
    let last = and_right _ _ rest in
    (
      and_left _ _ clean,
      and_left _ _ rest,
      and_left _ _ last,
      and_right _ _ last,
      either_protocol u (and_right _ _ h),
    )

module _ (parse_url : String → Option Url) where
  -- A text that is read as a safe URL.
  abbrev pub IsUrl : String → Type 0
  IsUrl s = (u : Url) × (parse_url s ≡ some u) × IsSafe u

  pub is_url-IsUrl : (s : String) → is_url parse_url s ≡ true → IsUrl s
  is_url-IsUrl s h = go (parse_url s) refl h
    where
      go :
          (o : Option Url)
          → parse_url s ≡ o
          → (elim o [ none ↦ false | some u ↦ is_safe_url u ]) ≡ true
          → IsUrl s
      go none e h = absurd (cc)
      go (some u) e h = (u, e, safe u h)
