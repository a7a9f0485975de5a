-- ===== src/Http/Target.antt =====
-- src/http.ts: `requestPath` and the match of the `authorization` header, on UTF-16 code units. The URL
-- parser is a parameter: it gives the origin and the path name, or throws.
pub mod Sound
use secure_mcp.Shared.{
  ℕ, ◌+◌, Bool, true, false, not, ◌&&◌, ◌||◌, Option, none, some, List, [], ◌∷◌, map, leb, ◌==◌,
  if◌then◌else◌, length, all, any, take, drop, codes, is_upper, is_digit, is_alnum,
}

abbrev pub is_hex : ℕ → Bool
is_hex c = is_digit c || ((leb b'a' c && leb c b'f') || (leb b'A' c && leb c b'F'))

abbrev pub starts_with : List ℕ → List ℕ → Bool
starts_with [] s = true
starts_with (p ∷ ps) [] = false
starts_with (p ∷ ps) (c ∷ s) = p == c && starts_with ps s

-- `[\x00-\x20\x7f#]`
abbrev pub is_forbidden : ℕ → Bool
is_forbidden c = leb c 0x20 || (c == 0x7f || c == b'#')

-- `target.split('?')[0]`
abbrev pub before_query : List ℕ → List ℕ
before_query [] = []
before_query (c ∷ cs) = if c == b'?' then [] else c ∷ before_query cs

-- `/%(?![a-f0-9]{2})/i.test(path)`, negated: every percent sign begins an escape.
abbrev pub escapes_closed : List ℕ → Bool
escapes_closed [] = true
escapes_closed (c ∷ cs) = (not (c == b'%') || is_escape cs) && escapes_closed cs
  where
    is_escape : List ℕ → Bool
    is_escape (a ∷ b ∷ _) = is_hex a && is_hex b
    is_escape _ = false

abbrev pub same : List ℕ → List ℕ → Bool
same [] [] = true
same (x ∷ xs) (y ∷ ys) = x == y && same xs ys
same _ _ = false

unfoldable pub request_path :
    (List ℕ → Option (List ℕ × List ℕ)) → List ℕ → List ℕ → Option (List ℕ)
request_path parse_url target origin =
    let path = before_query target in
    if not (starts_with (b'/' ∷ []) target)
      || (starts_with (b'/' ∷ b'/' ∷ []) target || any is_forbidden target)
    then none
    else if any (λ c. c == b'\\') path || not (escapes_closed path)
    then none
    else elim (parse_url target) [
      | none ↦ none
      | some (found, pathname) ↦ if same found origin && same pathname path then some path else none
    ]

-- `[A-Za-z0-9._~-]`
abbrev pub is_token_char : ℕ → Bool
is_token_char c = is_alnum c || (c == b'.' || (c == b'_' || (c == b'~' || c == b'-')))

abbrev pub lowered : ℕ → ℕ
lowered c = if is_upper c then c + 32 else c

-- `/^Bearer ([A-Za-z0-9._~-]{1,8192})$/i`: the token.
unfoldable pub bearer_token : List ℕ → Option (List ℕ)
bearer_token header =
    let token = drop 7 header in
    if same (map lowered (take 7 header)) (codes "bearer ")
      && (all is_token_char token && (leb 1 (length token) && leb (length token) 8192))
    then some token
    else none
