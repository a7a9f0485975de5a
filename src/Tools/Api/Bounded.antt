-- ===== src/Tools/Api/Bounded.antt =====
-- What `api_read` answers, and that it ends.
use secure_mcp.Shared.{
  ℕ, zero, suc, ◌+◌, ◌≤◌, String, ◌≡◌, refl, ap, inl, inr, Bool, true, false, Option, none, some,
  List, [], ◌++◌, arith, ltb, Bool-cases, length, length-append, subst,
}
use secure_mcp.Errors.{
  FailureCode, upstream_failed, output_too_large, runtime_failure, foreign, Outcome, value, raised,
}
use secure_mcp.Tools.Api.{
  Upstream, after_chunk, read_chunks, reader_closed, decoded_body, closed_body, refused_body,
  attempt, disclosed, read_api,
}

-- The reader's results before one, each a chunk, and their bytes.
abbrev pub Delivers : Upstream → ℕ → List ℕ → Type 0
Delivers u zero bytes = [] ≡ bytes
Delivers u (suc n) bytes =
    (before : List ℕ) × (chunk : List ℕ) × Delivers u n before
    × (u.read n ≡ value (some chunk))
    × (u.reading_aborted n ≡ false)
    × (before ++ chunk ≡ bytes)

-- The whole body: every chunk, and then the end.
abbrev pub IsBody : Upstream → List ℕ → Type 0
IsBody u bytes =
    (n : ℕ) × Delivers u n bytes × (u.read n ≡ value none) × (u.reading_aborted n ≡ false)

abbrev Loops : Upstream → ℕ → Option (Outcome (List ℕ)) → Type 0
Loops u maximum none = Unit
Loops u maximum (some (raised e)) = Unit
Loops u maximum (some (value bytes)) = IsBody u bytes × (length bytes ≤ maximum)

not_less : (a b : ℕ) → ltb a b ≡ false → b ≤ a
not_less a b h = ground arith

read_chunks-Loops :
    (fuel : ℕ) (u : Upstream) (maximum index : ℕ) (bytes : List ℕ)
    → Delivers u index bytes
    → length bytes ≤ maximum
    → Loops u maximum (read_chunks fuel u maximum index (length bytes) bytes)
unfolding read_chunks
read_chunks-Loops zero u maximum index bytes d small = tt
read_chunks-Loops (suc fuel) u maximum index bytes d small =
    elim (Bool-cases (u.reading_aborted index)) [
      | inl aborted ↦ rw (read_chunks, aborted) tt
      | inr on ↦
          rw (read_chunks, on)
            (next (u.read index) refl on λ chunk r fits.
              let grown : length (bytes ++ chunk) ≡ length bytes + length chunk =
                length-append bytes chunk in
              subst
                (λ size.
                  Loops u maximum (read_chunks fuel u maximum (suc index) size (bytes ++ chunk)))
                grown
                (read_chunks-Loops fuel u maximum (suc index) (bytes ++ chunk)
                  (bytes, chunk, d, r, on, refl) (omega (arith, grown, fits))))
    ]
  where
    next :
        (o : Outcome (Option (List ℕ)))
        → u.read index ≡ o
        → u.reading_aborted index ≡ false
        → ((chunk : List ℕ)
            → u.read index ≡ value (some chunk)
            → length bytes + length chunk ≤ maximum
            → Loops u maximum (
                read_chunks fuel u maximum
                  (suc index)
                  (length bytes + length chunk)
                  (bytes ++ chunk)))
        → Loops u maximum (
            after_chunk maximum
              (length bytes)
              bytes
              (λ n bs. read_chunks fuel u maximum (suc index) n bs)
              o)
    next (raised e) r on later = tt
    next (value none) r on later = ((index, d, r, on), small)
    next (value (some chunk)) r on later =
        elim (Bool-cases (ltb maximum (length bytes + length chunk))) [
          | inl large ↦ rw large tt
          | inr fits ↦ rw fits (later chunk r (not_less maximum (length bytes + length chunk) fits))
        ]

-- Every chunk has a byte at least.
abbrev pub IsFed : Upstream → Type 0
IsFed u = (i : ℕ) (chunk : List ℕ) → u.read i ≡ value (some chunk) → 1 ≤ length chunk

-- Each round but the last takes a byte, so the loop ends.
read_chunks_total :
    (fuel : ℕ) (u : Upstream) (maximum index size : ℕ) (bytes : List ℕ)
    → IsFed u
    → size ≤ maximum
    → maximum + 1 ≤ size + fuel
    → (o : Outcome (List ℕ)) × (read_chunks fuel u maximum index size bytes ≡ some o)
unfolding read_chunks
read_chunks_total zero u maximum index size bytes fed small enough = absurd (omega arith)
read_chunks_total (suc fuel) u maximum index size bytes fed small enough =
    elim (Bool-cases (u.reading_aborted index)) [
      | inl aborted ↦ (raised u.abort_reason, rw (read_chunks, aborted) refl)
      | inr on ↦
          let (o, e) = next (u.read index) refl λ chunk h fits.
            let some_bytes = fed index chunk h in
            read_chunks_total fuel u maximum (suc index) (size + length chunk) (bytes ++ chunk) fed
              fits (omega arith) in
          (o, rw (read_chunks, on) e)
    ]
  where
    next :
        (r : Outcome (Option (List ℕ)))
        → u.read index ≡ r
        → ((chunk : List ℕ)
            → u.read index ≡ value (some chunk)
            → size + length chunk ≤ maximum
            → (o : Outcome (List ℕ)) × (read_chunks fuel u maximum
                  (suc index)
                  (size + length chunk)
                  (bytes ++ chunk)
                ≡ some o))
        → (o : Outcome (List ℕ)) × (after_chunk maximum size bytes
              (λ n bs. read_chunks fuel u maximum (suc index) n bs)
              r
            ≡ some o)
    next (raised e) h later = (raised e, refl)
    next (value none) h later = (value bytes, refl)
    next (value (some chunk)) h later = elim (Bool-cases (ltb maximum (size + length chunk))) [
      | inl large ↦ (raised (runtime_failure output_too_large), rw large refl)
      | inr fits ↦
          let (o, e) = later chunk h (not_less maximum (size + length chunk) fits) in (o, rw fits e)
    ]

-- A text is a whole body of at most so many bytes, from a good response; an error is a RuntimeFailure.
abbrev pub IsAnswer : Upstream → ℕ → Outcome String → Type 0
IsAnswer u maximum (value text) =
    (u.fetched ≡ value (true, true))
    × ((bytes : List ℕ) × IsBody u bytes × (length bytes ≤ maximum) × (u.decode bytes ≡ value text))
IsAnswer u maximum (raised e) = (c : FailureCode) × (e ≡ runtime_failure c)

-- The same before the `catch`.
abbrev IsResult : Upstream → ℕ → Outcome String → Type 0
IsResult u maximum (value text) = IsAnswer u maximum (value text)
IsResult u maximum (raised e) = Unit

disclosed-IsAnswer :
    (u : Upstream) (maximum : ℕ) (aborted : Bool) (o : Outcome String)
    → IsResult u maximum o
    → IsAnswer u maximum (disclosed aborted o)
disclosed-IsAnswer u maximum aborted (value text) h = h
disclosed-IsAnswer u maximum aborted (raised (runtime_failure c)) h = (c, refl)
disclosed-IsAnswer u maximum aborted (raised (foreign message)) h = (_, refl)

reader_closed-IsResult :
    (u : Upstream) (maximum : ℕ) (c : Outcome Unit) (o : Outcome String)
    → IsResult u maximum o
    → IsResult u maximum (reader_closed c o)
reader_closed-IsResult u maximum (raised e) o h = tt
reader_closed-IsResult u maximum (value x) o h = h

decoded-IsResult :
    (u : Upstream) (maximum : ℕ) (o : Outcome (List ℕ))
    → u.fetched ≡ value (true, true)
    → Loops u maximum (some o)
    → IsResult u maximum (decoded_body u o)
decoded-IsResult u maximum (raised e) good loops = tt
decoded-IsResult u maximum (value bytes) good (body, small) = go (u.decode bytes) refl
  where
    go : (d : Outcome String) → u.decode bytes ≡ d → IsResult u maximum d
    go (raised e) h = tt
    go (value text) h = (good, (bytes, body, small, h))

refused-IsResult :
    (u : Upstream) (maximum : ℕ) (has_body : Bool) → IsResult u maximum (refused_body has_body u)
refused-IsResult u maximum false = tt
refused-IsResult u maximum true = go u.body_cancelled
  where
    go :
        (c : Outcome Unit)
        → IsResult u maximum
            (elim c [ raised e ↦ raised e | value _ ↦ raised (runtime_failure upstream_failed) ])
    go (raised e) = tt
    go (value x) = tt

attempt-IsResult :
    (u : Upstream) (maximum : ℕ)
    → IsFed u
    → (f : Outcome (Bool × Bool)) → u.fetched ≡ f
    → (o : Outcome String) × (attempt (maximum + 1) u maximum f ≡ some o) × IsResult u maximum o
unfolding attempt
attempt-IsResult u maximum fed (raised e) h = (raised e, refl, tt)
attempt-IsResult u maximum fed (value (false, has_body)) h =
    (refused_body has_body u, refl, refused-IsResult u maximum has_body)
attempt-IsResult u maximum fed (value (true, false)) h =
    (refused_body false u, refl, refused-IsResult u maximum false)
attempt-IsResult u maximum fed (value (true, true)) h =
    let (o, e) = read_chunks_total (maximum + 1) u maximum 0 0 [] fed (omega arith) (omega arith) in
    (
      reader_closed u.reader_cancelled (decoded_body u o),
      ap (closed_body u) e,
      reader_closed-IsResult u maximum u.reader_cancelled (decoded_body u o) (
          decoded-IsResult u maximum o h (
            subst (Loops u maximum) e
              (read_chunks-Loops (maximum + 1) u maximum 0 [] refl (omega arith)))),
    )

-- When every chunk has a byte at least, `api_read` ends, after at most one read more than the maximum of
-- bytes. If it gives a text, then the response was good and the text is decoded from its whole body,
-- every chunk in order, which has at most the maximum of bytes, and no check found the signal aborted;
-- otherwise it throws a RuntimeFailure.
pub read_api-IsAnswer :
    (u : Upstream) (maximum : ℕ)
    → IsFed u
    → (o : Outcome String) × (read_api (maximum + 1) u maximum ≡ some o) × IsAnswer u maximum o
unfolding read_api
read_api-IsAnswer u maximum fed =
    let (o, e, result) = attempt-IsResult u maximum fed u.fetched refl in
    (disclosed u.aborted o, rw (read_api, e) refl, disclosed-IsAnswer u maximum u.aborted o result)
