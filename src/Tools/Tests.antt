-- ===== src/Tools/Tests.antt =====
-- A system with one file a/b of three bytes, and the laws at it.
use secure_mcp.Shared.{◌-◌, min, ◌≡◌, refl, ◌⊎◌, false, [], ◌∷◌, ◌==◌, if◌then◌else◌, All, codes}
use secure_mcp.Errors.{denied, cancelled, not_found, runtime_failure, foreign, value, raised}
use secure_mcp.Tools.{
  Files, read_document, read_loop, is_denied, open_chain, read_file, split, nothing,
}
use secure_mcp.Tools.Confinement.{Descends, IsSafe, names, read_document-Descends}

abbrev files : Files
files = record {
  root = 7;
  open_at = λ parent part last.
      if parent == 7 then value 8 else if parent == 8 then value 9 else raised (foreign "ENOENT");
  stat = λ handle. value (handle == 9, 3);
  read = λ handle total wanted. value (min wanted (3 - total));
  decode = λ handle total. value "abc";
  opening_aborted = λ _. false;
  reading_aborted = λ _. false;
  abort_reason = runtime_failure cancelled;
  aborted = false;
  close_all = λ handles. value tt;
}

-- The same, with handles that cannot be closed.
abbrev stuck : Files
stuck = record files { close_all = λ handles. raised (foreign "EIO") }

reads :
    ((read_document files 10 (codes "a/b")).answer ≡ value (3, "abc"))
    × ((read_document files 10 (codes "a/b")).closed ≡ 8 ∷ 9 ∷ [])
    × ((read_document files 10 (codes "a/b/c")).answer ≡ raised (runtime_failure not_found))
    × ((read_document files 10 (codes "a/../b")).answer ≡ raised (runtime_failure denied))
    × ((read_document files 10 (codes "/a")).answer ≡ raised (runtime_failure denied))
    × ((read_document files 10 (codes "a")).answer ≡ raised (runtime_failure denied))
    × ((read_document stuck 10 (codes "a/b")).answer ≡ raised (foreign "EIO"))
unfolding read_document is_denied open_chain read_file read_loop
reads = (refl, refl, refl, refl, refl, refl, refl)

read_document-Descends_example :
    let r = read_document files 10 (codes "a/b/c") in
    Descends 7 (split (codes "a/b/c")) r.trace
    × All IsSafe (names r.trace)
    × (r.closed ≡ r.trace.opened)
    × ((is_denied (codes "a/b/c") ≡ false) ⊎ (r.trace ≡ nothing))
read_document-Descends_example = read_document-Descends files 10 (codes "a/b/c")
