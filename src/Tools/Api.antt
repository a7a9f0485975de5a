-- ===== src/Tools/Api.antt =====
-- src/tools.ts: the tool `api_read`. A body is a sequence of chunks of bytes; `fetch`, its reader and the
-- decoder are a parameter, the fields of `Upstream`.
pub mod Bounded
mod Tests
use secure_mcp.Shared.{
  ℕ, zero, suc, ◌+◌, ◌-◌, ◌*◌, ◌/◌, ◌%◌, ◌≤◌, ◌<◌, min, max, String, ◌≡◌, refl, sym, ap, ◌∙◌, ◌≢◌,
  ◌↔◌, ◌⊎◌, inl, inr, Bool, true, false, not, ◌&&◌, ◌||◌, Option, none, some, List, [], ◌∷◌, ◌++◌,
  map, arith, str_eq, eq_iff, ltb, leb, ◌==◌, if◌then◌else◌, ltb→lt, lt→ltb, leb→le, le→leb, ==_iff,
  Bool-cases, Option-cases, Bool-eq_of_iff, and_intro, and_left, and_right, length, all, any, keep,
  length-append, length-keep-le, take, drop, get_elem?, All, All-append, all-All, All-all, All-mono,
  In, In-append, In-append_right, codes, bit_and_31, bit_or_byte, includes, includes_iff, is_empty,
  units, is_lower, is_upper, is_digit, is_alnum, modify_at, tally, tally-append, tally-modify_at-le,
  All-modify_at, All-get_elem?, take-add, take_all, take-append_drop, length-drop, take-append,
  take-nil, drop-nil, drop-add, append-nil, append_assoc, ap₂, subst, some-injective,
}
use secure_mcp.Errors.{
  cancelled, upstream_failed, output_too_large, Thrown, runtime_failure, foreign, Outcome, value,
  raised,
}

pub record Upstream : Type 0 where
  -- `fetch`: whether the response is ok, and whether it has a body
  pub fetched : Outcome (Bool × Bool)
  -- the cancellation of a body that is not read
  pub body_cancelled : Outcome Unit
  -- the reader's results, in their order: a chunk, or the end
  pub read : ℕ → Outcome (Option (List ℕ))
  pub reader_cancelled : Outcome Unit
  -- the fatal UTF-8 decoder
  pub decode : List ℕ → Outcome String
  -- whether the signal has aborted before each read, what the check throws, and whether the signal has
  -- aborted when an error is caught
  pub reading_aborted : ℕ → Bool
  pub abort_reason : Thrown
  pub aborted : Bool

-- One result of the reader.
abbrev pub after_chunk :
    ℕ
    → ℕ
    → List ℕ
    → (ℕ → List ℕ → Option (Outcome (List ℕ)))
    → Outcome (Option (List ℕ))
    → Option (Outcome (List ℕ))
after_chunk maximum size chunks continue (raised e) = some (raised e)
after_chunk maximum size chunks continue (value none) = some (value chunks)
after_chunk maximum size chunks continue (value (some chunk)) =
    if ltb maximum (size + length chunk)
    then some (raised (runtime_failure output_too_large))
    else continue (size + length chunk) (chunks ++ chunk)

-- The loop, with the bytes of the chunks so far, on fuel: `none` is a loop that has not ended.
unfoldable pub read_chunks : ℕ → Upstream → ℕ → ℕ → ℕ → List ℕ → Option (Outcome (List ℕ))
read_chunks zero u maximum index size chunks = none
read_chunks (suc fuel) u maximum index size chunks =
    if u.reading_aborted index
    then some (raised u.abort_reason)
    else after_chunk maximum size chunks (λ n bs. read_chunks fuel u maximum (suc index) n bs)
        (u.read index)

-- The `finally`: an error of it takes the place of what came before.
abbrev pub reader_closed : Outcome Unit → Outcome String → Outcome String
reader_closed (raised e) o = raised e
reader_closed (value _) o = o

abbrev pub decoded_body : Upstream → Outcome (List ℕ) → Outcome String
decoded_body u (raised e) = raised e
decoded_body u (value bytes) = u.decode bytes

abbrev pub closed_body : Upstream → Option (Outcome (List ℕ)) → Option (Outcome String)
closed_body u none = none
closed_body u (some o) = some (reader_closed u.reader_cancelled (decoded_body u o))

-- `await response.body?.cancel()`, and then the refusal.
abbrev pub refused_body : Bool → Upstream → Outcome String
refused_body false u = raised (runtime_failure upstream_failed)
refused_body true u = elim u.body_cancelled [
  | raised e ↦ raised e
  | value _ ↦ raised (runtime_failure upstream_failed)
]

-- The body of the `try`, with the result of `fetch`.
unfoldable pub attempt : ℕ → Upstream → ℕ → Outcome (Bool × Bool) → Option (Outcome String)
attempt fuel u maximum (raised e) = some (raised e)
attempt fuel u maximum (value (is_ok, has_body)) =
    if not is_ok || not has_body
    then some (refused_body has_body u)
    else closed_body u (read_chunks fuel u maximum 0 0 [])

-- The `catch`.
abbrev pub disclosed : Bool → Outcome String → Outcome String
disclosed aborted (value text) = value text
disclosed aborted (raised (runtime_failure c)) = raised (runtime_failure c)
disclosed aborted (raised (foreign message)) =
    raised (runtime_failure (if aborted then cancelled else upstream_failed))

unfoldable pub read_api : ℕ → Upstream → ℕ → Option (Outcome String)
read_api fuel u maximum = elim (attempt fuel u maximum u.fetched) [
  | none ↦ none
  | some o ↦ some (disclosed u.aborted o)
]
