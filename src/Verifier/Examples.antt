-- ===== src/Verifier/Examples.antt =====
-- A run of tests that fails after a patch, and a context that lacks a file.
use lula.Prelude.{
  String, ◌≡◌, ◌≤◌, ◌↔◌, refl, Bool, true, false, none, some, List, [], ◌∷◌, leb, all, count_if,
}
use lula.Prelude.Int.{pos}
use lula.Prelude.Texts.{strip}
use lula.Prelude.Ranked.{IsBest}
use lula.Budget.{no_halt}
use lula.Orchestrator.{to_coder, to_context_builder, route_after_policy_gate}
use lula.Verifier.{
  Text, Result, extract_diagnostics, is_architecture_mismatch, patch_applied, verifier_parts,
}
use lula.Verifier.Retry.{amend, classify_retry, retry_parts}
use lula.Verifier.Retry.Table.{AllOk, target_of, blocked}
use lula.Verifier.Acceptance.{acceptance_parts}
use lula.Verifier.Facts.{
  Fact, fact_le, Failure, next_fact, has_fingerprint, candidates, updated_recovery_facts,
  facts_parts,
}
use lula.Verifier.Facts.Kept.{updated_recovery_facts-IsBest}
use lula.Verifier.Report.{
  Report, VerifierState, acceptance_of, raw_report, verifier, target_or_none, report_parts,
}
use lula.Verifier.Report.Verdict.{AllZero, node_of, verifier-ok_iff}
use lula.Verifier.Report.Next.{verifier-next}

-- Texts in lower case, no pattern found.
abbrev py : Text
py = record {
  lower = λ s. s;
  search = λ pattern s. false;
  number = λ n. "1";
  digest = λ s. "0123456789abcdef0123";
}

abbrev any_report : Report → Bool
any_report r = true

abbrev result : String → Bool → String → Result
result tool ok stderr = record {
  tool = tool;
  ok = ok;
  stdout = "";
  stderr = stderr;
  error = "";
  diagnostics = some [];
  nested_diagnostics = none;
}

abbrev patch : Result
patch = result "apply_patch" true ""

abbrev test_run : Result
test_run = result "run_tests" false "2 broken"

abbrev failing : VerifierState
failing = record {
  tool_results = patch ∷ test_run ∷ [];
  blocking = [];
  criteria = "the request is answered" ∷ [];
  has_repo_context = true;
  has_plan_steps = true;
  current_loop = 1;
  facts = [];
  context_reset_requested = false;
  plan_discarded = false;
  plan_discard_reason = "";
}

abbrev passing : VerifierState
passing = record failing { tool_results = patch ∷ [] }

target_of_failing : (verifier py any_report failing).retry_target ≡ some to_coder
unfolding verifier_parts retry_parts acceptance_parts facts_parts report_parts
target_of_failing = refl

missing_file :
    (classify_retry py (result "exec" false "no such file" ∷ []) 1).0.retry_target
    ≡ to_context_builder
unfolding verifier_parts retry_parts
missing_file = refl

passes : (verifier py any_report passing).report.ok ≡ true
unfolding verifier_parts retry_parts acceptance_parts facts_parts report_parts
passes = refl

verifier-ok_iff_example : ((verifier py any_report passing).report.ok ≡ true) ↔ (
    AllOk passing.tool_results
    × AllZero passing.blocking
    × (all (λ a. a.ok) (acceptance_of py any_report passing) ≡ true)
    × (any_report (raw_report py any_report passing).0 ≡ true))
verifier-ok_iff_example = verifier-ok_iff py any_report passing

verifier-next_example :
    route_after_policy_gate no_halt
      (verifier py any_report failing).context_reset_requested
      (target_or_none (verifier py any_report failing).retry_target)
    ≡ node_of (
        target_of
          (is_architecture_mismatch py test_run (extract_diagnostics test_run))
          (blocked py test_run)
          (patch_applied py failing.tool_results)
          (leb 2 failing.current_loop))
verifier-next_example =
    verifier-next py any_report failing (patch ∷ []) test_run [] refl refl tt refl refl

abbrev old_facts : List Fact
old_facts =
    record {
      failure_fingerprint = "f1";
      summary = "s1";
      is_recovery = true;
      loop = pos 0;
      salience = pos 8;
    }
    ∷ record {
      failure_fingerprint = "f2";
      summary = "s2";
      is_recovery = true;
      loop = pos 0;
      salience = pos 6;
    }
    ∷ []

abbrev again : Failure
again = record {
  failure_fingerprint = "f2";
  loop_summary = "s3";
  plan_action = amend;
  retry_target = to_coder;
}

updated_facts :
    updated_recovery_facts old_facts again 1
    ≡ record {
      failure_fingerprint = "f1";
      summary = "s1";
      is_recovery = true;
      loop = pos 0;
      salience = pos 8;
    }
      ∷ record {
        failure_fingerprint = "f2";
        summary = "s3";
        is_recovery = true;
        loop = pos 1;
        salience = pos 6;
      }
      ∷ []
unfolding facts_parts verifier_parts
updated_facts = refl

updated_recovery_facts-IsBest_example :
    IsBest fact_le 12 (candidates old_facts again 1) (updated_recovery_facts old_facts again 1)
    × (count_if
          (has_fingerprint (strip (next_fact again 1).failure_fingerprint))
          (updated_recovery_facts old_facts again 1)
        ≤ 1)
updated_recovery_facts-IsBest_example = updated_recovery_facts-IsBest old_facts again 1
