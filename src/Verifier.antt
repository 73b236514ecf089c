-- ===== src/Verifier.antt =====
-- The verifier node (py/src/lg_orch/nodes/verifier.py): what it makes of the last failing tool result,
-- and where the next loop goes. `Text` holds what is used of Python's texts beyond `strip`, and the
-- digest. Values that are no texts stand for what `str` makes of them.
pub mod Retry
pub mod Acceptance
pub mod Facts
pub mod Report
mod Examples
use Prim.Native.Char.{code}
use Prim.Native.String.{[] as ε, ◌∷◌ as ◌▸◌}
use lula.Prelude.{
  ℕ, zero, suc, String, Bool, true, false, not, ◌&&◌, ◌||◌, Option, none, some, List, [], ◌∷◌, ◌++◌,
  str_eq, leb, ltb, ◌==◌, if◌then◌else◌, any, map,
}
use lula.Prelude.Members.{contains}
use lula.Prelude.Int.{ℤ}
use lula.Prelude.Texts.{strip, is_blank, append, prepend, strip_parts}
use lula.Memory.Fit.{take_chars}
use lula.Memory.History.{starts_with}
use lula.Orchestrator.{RetryTarget, to_router, to_planner, to_coder, to_context_builder}

pub record Text : Type 0 where
  -- str.lower
  pub lower : String → String
  -- bool(re.search(pattern, text))
  pub search : String → String → Bool
  -- str of an integer
  pub number : ℤ → String
  -- sha256(text.encode("utf-8", errors="replace")).hexdigest()
  pub digest : String → String

pub record Diagnostic : Type 0 where
  pub file : String
  pub line : Option ℤ
  pub column : Option ℤ
  pub code : String
  pub message : String
  pub fingerprint : String

-- The lists of diagnostics are `none` where they are no lists; a missing one is empty. `error` is
-- artifacts["error"].
pub record Result : Type 0 where
  pub tool : String
  pub ok : Bool
  pub stdout : String
  pub stderr : String
  pub error : String
  pub diagnostics : Option (List Diagnostic)
  pub nested_diagnostics : Option (List Diagnostic)

or_empty : Option (List Diagnostic) → List Diagnostic
or_empty none = []
or_empty (some ds) = ds

listed : Option (List Diagnostic) → Option (List Diagnostic) → List Diagnostic
unfolding or_empty
listed (some ds) nested = ds
listed none nested = or_empty nested

pub extract_diagnostics : Result → List Diagnostic
unfolding listed
extract_diagnostics r = listed r.diagnostics r.nested_diagnostics

-- needle in text
pub is_in : String → String → Bool
is_in needle ε = starts_with ε needle
is_in needle (c ▸ s) = starts_with (c ▸ s) needle || is_in needle s

-- separator.join(texts)
pub join : String → List String → String
join separator [] = ""
join separator (s ∷ []) = s
join separator (s ∷ t ∷ rest) = append s (append separator (join separator (t ∷ rest)))

is_line_break : ℕ → Bool
is_line_break n =
    (leb 10 n && leb n 13) || (leb 28 n && leb n 30) || n == 133 || n == 8232 || n == 8233

-- text.splitlines(), but for more empty lines.
split_lines : String → List String
unfolding is_line_break
split_lines ε = ε ∷ []
split_lines (c ▸ s) =
    let rest = split_lines s in if is_line_break (code c) then ε ∷ rest else prepend c rest

first_nonempty : List String → String
first_nonempty [] = ""
first_nonempty (l ∷ ls) = if is_blank (strip l) then first_nonempty ls else strip l

pub first_nonempty_line : String → String
unfolding split_lines first_nonempty
first_nonempty_line s = first_nonempty (split_lines s)

module _ (py : Text) where
  numbered : String → Option ℤ → String
  numbered location none = location
  numbered location (some n) = append location (append ":" (py.number n))

  at_column : String → Option ℤ → Option ℤ → String
  at_column file none column = file
  at_column file (some line) column = numbered (numbered file (some line)) column

  location_of : Diagnostic → String
  unfolding at_column numbered
  location_of d = if is_blank (strip d.file) then "" else at_column (strip d.file) d.line d.column

  pub diagnostic_summary : Diagnostic → String
  unfolding location_of
  diagnostic_summary d =
      let message = strip d.message in
      let code_prefix =
        if is_blank (strip d.code) then "" else append "[" (append (strip d.code) "] ") in
      let location = location_of d in
      if not (is_blank location) && not (is_blank message)
      then strip (append location (append " " (append code_prefix message)))
      else if not (is_blank message)
      then strip (append code_prefix message)
      else ""

  first_summary : List Diagnostic → String
  first_summary [] = ""
  first_summary (d ∷ ds) = diagnostic_summary d

  first_fingerprint : List Diagnostic → String
  first_fingerprint [] = ""
  first_fingerprint (d ∷ ds) = strip d.fingerprint

  pub failure_fingerprint : Result → List Diagnostic → String
  unfolding first_summary first_fingerprint
  failure_fingerprint r ds =
      let direct = first_fingerprint ds in
      let seed =
        join "|"
          (strip r.tool ∷ strip r.error ∷ first_summary ds ∷ first_nonempty_line r.stderr ∷ []) in
      if is_blank direct then take_chars 16 (py.digest seed) else direct

  abbrev arch_mismatch_hints : List String
  arch_mismatch_hints =
      "no such file" ∷ "cannot find module" ∷ "module not found" ∷ "unresolved import"
      ∷ "could not find" ∷ "cannot find file" ∷ "file not found" ∷ "path escapes root"
      ∷ "read denied" ∷ []

  abbrev test_failure_hints : List String
  test_failure_hints =
      "assert" ∷ "assertion" ∷ "test_" ∷ "tests/" ∷ "test failed" ∷ "expected" ∷ "got"
      ∷ "does not match" ∷ "mismatch" ∷ "expected value" ∷ "pytest" ∷ "unittest" ∷ "FAILED"
      ∷ "test suite" ∷ []

  messages_of : List Diagnostic → String → List String
  messages_of ds stderr =
      map (λ d. py.lower (diagnostic_summary d)) ds
      ++ (if is_blank stderr then [] else py.lower stderr ∷ [])

  mentions_mismatch : String → Bool
  mentions_mismatch joined =
      any (λ hint. is_in hint joined) arch_mismatch_hints
      || (py.search "\\bmissing\\b" joined && py.search "\\bmodule\\b|\\bfile\\b" joined)

  pub is_architecture_mismatch : Result → List Diagnostic → Bool
  unfolding messages_of mentions_mismatch
  is_architecture_mismatch r ds =
      str_eq (py.lower (strip r.tool)) "read_file"
      || contains (py.lower (strip r.error)) ("read_denied" ∷ "path escapes root" ∷ [])
      || any (λ d. contains (py.lower (strip d.code)) ("e0432" ∷ "e0583" ∷ "f821" ∷ [])) ds
      || mentions_mismatch (join "\n" (messages_of ds r.stderr))

  pub patch_applied : List Result → Bool
  patch_applied results =
      any (λ r. contains (py.lower (strip r.tool)) ("apply_patch" ∷ "write_file" ∷ []) && r.ok)
        results

  is_test_tool : Result → List Diagnostic → Bool
  is_test_tool r ds =
      let tool_lower = py.lower (strip r.tool) in
      let all_text = py.lower (join " " (map diagnostic_summary ds ++ r.stderr ∷ r.stdout ∷ [])) in
      contains tool_lower ("run_tests" ∷ "pytest" ∷ "cargo_test" ∷ "test_runner" ∷ [])
      || is_in "test" tool_lower
      || any (λ hint. is_in hint all_text) test_failure_hints

  pub is_test_failure_post_change : Result → List Diagnostic → List Result → Bool
  unfolding is_test_tool
  is_test_failure_post_change r ds results = is_test_tool r ds && patch_applied results

-- What looking at a concrete result computes with.
unfoldable pub verifier_parts : Unit {0}
unfolding strip_parts append prepend starts_with take_chars or_empty listed extract_diagnostics
    is_in join is_line_break split_lines first_nonempty first_nonempty_line numbered at_column
    location_of diagnostic_summary first_summary first_fingerprint failure_fingerprint messages_of
    mentions_mismatch is_architecture_mismatch patch_applied is_test_tool
    is_test_failure_post_change contains any
verifier_parts = tt
