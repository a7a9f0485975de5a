-- ===== src/Tools/Reading.antt =====
-- The loop of `documents_read` ends, and the answers of the tool.
use secure_mcp.Shared.{
  ℕ, zero, suc, ◌+◌, ◌-◌, ◌≤◌, String, ◌≡◌, refl, ◌≢◌, inl, inr, Option, none, some, arith, leb,
  Bool-cases,
}
use secure_mcp.Errors.{Thrown, FailureCode, runtime_failure, Outcome, value, raised}
use secure_mcp.Tools.{Read, after_read, Files, read_loop, ended}

after_read_some :
    (total : ℕ) (continue : ℕ → Option (Outcome ℕ)) (o : Outcome ℕ)
    → ((n : ℕ) → continue (total + suc n) ≢ none)
    → after_read total continue o ≢ none
after_read_some total continue (raised e) h = λ x. cc
after_read_some total continue (value zero) h = λ x. cc
after_read_some total continue (value (suc n)) h = h n

read_loop_total :
    (fuel : ℕ) (f : Files) (handle maximum total : ℕ)
    → maximum + 2 ≤ total + fuel
    → 1 ≤ fuel
    → read_loop fuel f handle maximum total ≢ none
unfolding read_loop
read_loop_total zero f h m t p q = λ e. absurd (omega arith)
read_loop_total (suc fuel) f h m t p q = elim (Bool-cases (leb (m + 1) t)) [
  | inl e ↦ simp e (λ x. cc)
  | inr e ↦
      let next =
        after_read_some t (λ n. read_loop fuel f h m n) (f.read h t (m + 1 - t))
          (λ n. read_loop_total fuel f h m (t + suc n) (omega arith) (ground arith)) in
      ground (arith, next)
]

ended_lem : (o : Option (Outcome ℕ)) → o ≢ none → o ≡ some (ended o)
ended_lem none h = absurd (h refl)
ended_lem (some x) h = refl

-- The loop that reads a document ends by itself, whatever the file gives, within a number of reads
-- that the limit alone bounds.
pub read_loop-ended :
    (f : Files) (handle maximum : ℕ)
    → read_loop (maximum + 2) f handle maximum 0
      ≡ some (ended (read_loop (maximum + 2) f handle maximum 0))
read_loop-ended f h m = ended_lem _ (read_loop_total (m + 2) f h m 0 (omega arith) (omega arith))

-- An answer before the handles are closed: a text of a bounded number of bytes, or a failure code.
data Answered (maximum : ℕ) : Outcome (ℕ × String) → Type 0 where
  text_of : (bytes : ℕ) (text : String) → bytes ≤ maximum → Answered maximum (value (bytes, text))
  failed : (code : FailureCode) → Answered maximum (raised (runtime_failure code))

-- How a read may end: with a text of at most so many bytes, with a failure code, or with the error of a
-- close of the handles that it opened, which nothing maps.
pub data Ends (f : Files) (maximum : ℕ) (r : Read) : Type 0 where
  reads_text :
      (bytes : ℕ) (text : String)
      → bytes ≤ maximum
      → r.answer ≡ value (bytes, text)
      → Ends f maximum r
  fails_with : (code : FailureCode) → r.answer ≡ raised (runtime_failure code) → Ends f maximum r
  close_fails :
      (e : Thrown) → f.close_all r.trace.opened ≡ raised e → r.answer ≡ raised e → Ends f maximum r
