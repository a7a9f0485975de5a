-- ===== src/Tools/Api/Tests.antt =====
-- Two chunks, and the end.
use secure_mcp.Shared.{
  ℕ, zero, suc, String, ◌≡◌, refl, true, false, Option, none, some, List, [], ◌∷◌, arith,
}
use secure_mcp.Errors.{foreign, Outcome, value, raised, runtime_failure, output_too_large}
use secure_mcp.Tools.Api.{Upstream, read_api, read_chunks, attempt}
use secure_mcp.Tools.Api.Bounded.{IsAnswer, IsFed, read_api-IsAnswer}

abbrev chunks : ℕ → Outcome (Option (List ℕ))
chunks zero = value (some (b'h' ∷ []))
chunks (suc zero) = value (some (b'i' ∷ []))
chunks (suc (suc n)) = value none

abbrev upstream : Upstream
upstream = record {
  fetched = value (true, true);
  body_cancelled = value tt;
  read = chunks;
  reader_cancelled = value tt;
  decode = λ bytes. value "hi";
  reading_aborted = λ n. false;
  abort_reason = foreign "aborted";
  aborted = false;
}

fed : IsFed upstream
fed zero [] h = absurd (cc)
fed zero (c ∷ cs) h = omega arith
fed (suc zero) [] h = absurd (cc)
fed (suc zero) (c ∷ cs) h = omega arith
fed (suc (suc n)) chunk h = absurd (cc)

read_api-IsAnswer_example :
    (o : Outcome String) × (read_api 11 upstream 10 ≡ some o) × IsAnswer upstream 10 o
read_api-IsAnswer_example = read_api-IsAnswer upstream 10 fed

answers :
    (read_api 11 upstream 10 ≡ some (value "hi"))
    × (read_api 2 upstream 1 ≡ some (raised (runtime_failure output_too_large)))
unfolding read_api attempt read_chunks
answers = (refl, refl)
