-- ===== src/Tools.antt =====
-- src/tools.ts: the tool `documents_read`. A path is a list of UTF-16 code units, a file handle a number.
-- The operating system is a parameter, the fields of `Files`; what the tool asks of it is kept in lists,
-- oldest first.
pub mod Confinement
pub mod Reading
pub mod Api
mod Tests
use secure_mcp.Shared.{
  ℕ, zero, suc, ◌+◌, ◌-◌, ◌*◌, ◌/◌, ◌%◌, ◌≤◌, ◌<◌, min, max, String, ◌≡◌, refl, sym, ap, ◌∙◌, ◌≢◌,
  ◌↔◌, ◌⊎◌, inl, inr, Bool, true, false, not, ◌&&◌, ◌||◌, Option, none, some, List, [], ◌∷◌, ◌++◌,
  map, arith, str_eq, eq_iff, ltb, leb, ◌==◌, if◌then◌else◌, ltb→lt, lt→ltb, leb→le, le→leb, ==_iff,
  Bool-cases, Option-cases, Bool-eq_of_iff, and_intro, and_left, and_right, length, all, any, keep,
  length-append, length-keep-le, take, drop, get_elem?, All, All-append, all-All, All-all, All-mono,
  In, In-append, In-append_right, codes, bit_and_31, bit_or_byte, includes, includes_iff, is_empty,
  units, is_lower, is_upper, is_digit, is_alnum, modify_at, tally, tally-append, tally-modify_at-le,
  All-modify_at, All-get_elem?, take-add, take_all, take-append_drop, length-drop, take-append,
  take-nil, drop-nil, drop-add, append-nil, append_assoc, ap₂, subst, some-injective,
}
use secure_mcp.Errors.{
  denied, cancelled, not_found, output_too_large, Thrown, runtime_failure, foreign, Outcome, value,
  raised,
}

pub record Files : Type 0 where
  pub root : ℕ
  -- `open` below a parent, of a part that is the last one or not
  pub open_at : ℕ → List ℕ → Bool → Outcome ℕ
  -- `stat`: whether it is a file, and its size
  pub stat : ℕ → Outcome (Bool × ℕ)
  -- `read` of at most so many bytes after those that were read
  pub read : ℕ → ℕ → ℕ → Outcome ℕ
  -- the fatal UTF-8 decoder on the bytes read
  pub decode : ℕ → ℕ → Outcome String
  -- whether the signal has aborted at each check, what the check throws, and whether the signal has
  -- aborted when an error is caught
  pub opening_aborted : ℕ → Bool
  pub reading_aborted : ℕ → Bool
  pub abort_reason : Thrown
  pub aborted : Bool
  -- `Promise.all` of the closes of these handles: the first rejection, if any
  pub close_all : List ℕ → Outcome Unit

abbrev pub put : ℕ → List (List ℕ) → List (List ℕ)
put c [] = (c ∷ []) ∷ []
put c (w ∷ ws) = (c ∷ w) ∷ ws

-- `path.split('/')`
abbrev pub split : List ℕ → List (List ℕ)
split [] = [] ∷ []
split (c ∷ cs) = if c == b'/' then [] ∷ split cs else put c (split cs)

-- `!part || part.startsWith('.')`
abbrev pub is_hidden : List ℕ → Bool
is_hidden [] = true
is_hidden (c ∷ cs) = c == b'.'

abbrev pub is_absolute : List ℕ → Bool
is_absolute [] = false
is_absolute (c ∷ cs) = c == b'/'

unfoldable pub is_denied : List ℕ → Bool
is_denied path =
    is_absolute path
    || (any (λ c. c == b'\\') path || (any (λ c. c == 0) path || any is_hidden (split path)))

-- What was asked of the operating system: the parts that were opened, each below its parent, and the
-- handles that were obtained.
pub record Trace : Type 0 where
  pub asked : List (ℕ × List ℕ)
  pub opened : List ℕ

abbrev pub is_last : List (List ℕ) → Bool
is_last [] = true
is_last (_ ∷ _) = false

-- One `open`: the loop goes on with a handle.
abbrev pub after_open : Trace → (ℕ → Trace → Outcome ℕ × Trace) → Outcome ℕ → Outcome ℕ × Trace
after_open t continue (raised e) = (raised e, t)
after_open t continue (value h) = continue h (record t { opened = t.opened ++ h ∷ [] })

-- The loop that opens one part after the other; it ends with the last handle.
unfoldable pub open_chain : Files → ℕ → ℕ → List (List ℕ) → Trace → Outcome ℕ × Trace
open_chain f parent index [] t = (value parent, t)
open_chain f parent index (part ∷ parts) t =
    if f.opening_aborted index
    then (raised f.abort_reason, t)
    else after_open (record t { asked = t.asked ++ (parent, part) ∷ [] })
        (λ h t'. open_chain f h (index + 1) parts t') (f.open_at parent part (is_last parts))

-- One `read`: the loop goes on after at least one byte.
abbrev pub after_read : ℕ → (ℕ → Option (Outcome ℕ)) → Outcome ℕ → Option (Outcome ℕ)
after_read total continue (raised e) = some (raised e)
after_read total continue (value zero) = some (value total)
after_read total continue (value (suc n)) = continue (total + suc n)

-- The loop that reads into the buffer of `maximum + 1` bytes, on fuel; `none` is a loop that has not
-- ended.
unfoldable pub read_loop : ℕ → Files → ℕ → ℕ → ℕ → Option (Outcome ℕ)
read_loop zero f handle maximum total = none
read_loop (suc fuel) f handle maximum total =
    if leb (maximum + 1) total
    then some (value total)
    else if f.reading_aborted total
    then some (raised f.abort_reason)
    else after_read total (λ n. read_loop fuel f handle maximum n)
        (f.read handle total (maximum + 1 - total))

-- A loop that has not ended would give no result; with this fuel there is none.
abbrev pub ended : Option (Outcome ℕ) → Outcome ℕ
ended none = raised (foreign "")
ended (some o) = o

abbrev pub decoded : Files → ℕ → ℕ → Outcome ℕ → Outcome (ℕ × String)
decoded f handle maximum (raised e) = raised e
decoded f handle maximum (value total) =
    if ltb maximum total
    then raised (runtime_failure output_too_large)
    else elim (f.decode handle total) [ raised e ↦ raised e | value text ↦ value (total, text) ]

-- From `stat` to the decoded text, with the number of bytes that it stands for.
unfoldable pub read_file : Files → ℕ → ℕ → Outcome (ℕ × String)
unfolding read_loop
read_file f maximum handle = elim (f.stat handle) [
  | raised e ↦ raised e
  | value (is_file, size) ↦
      if not is_file
      then raised (runtime_failure denied)
      else if ltb maximum size
      then raised (runtime_failure output_too_large)
      else decoded f handle maximum (ended (read_loop (maximum + 2) f handle maximum 0))
]

abbrev pub then_read : Files → ℕ → Outcome ℕ → Outcome (ℕ × String)
then_read f maximum (raised e) = raised e
then_read f maximum (value handle) = read_file f maximum handle

-- The `catch`: what is no RuntimeFailure is not disclosed.
abbrev pub guarded : Files → Outcome (ℕ × String) → Outcome (ℕ × String)
guarded f (value r) = value r
guarded f (raised (runtime_failure c)) = raised (runtime_failure c)
guarded f (raised (foreign message)) =
    raised (runtime_failure (if f.aborted then cancelled else not_found))

-- The answer, what was asked, and the handles that `finally` closes.
pub record Read : Type 0 where
  pub answer : Outcome (ℕ × String)
  pub trace : Trace
  pub closed : List ℕ

-- The `finally`: a close that rejects takes the place of what came before.
abbrev pub after_close : Outcome Unit → Outcome (ℕ × String) → Outcome (ℕ × String)
after_close (raised e) o = raised e
after_close (value _) o = o

abbrev pub nothing : Trace
nothing = record { asked = []; opened = [] }

unfoldable pub read_document : Files → ℕ → List ℕ → Read
unfolding is_denied open_chain read_file
read_document f maximum path =
    if is_denied path
    then record { answer = raised (runtime_failure denied); trace = nothing; closed = [] }
    else (let (o, t) = open_chain f f.root 0 (split path) nothing in
        record {
          answer = after_close (f.close_all t.opened) (guarded f (then_read f maximum o));
          trace = t;
          closed = t.opened;
        })
