-- ===== src/Verifier/Report.antt =====
-- The report of the verifier (py/src/lg_orch/nodes/verifier.py): _build_checks and the body of
-- verifier, from the results of all calls on. `valid` is jsonschema.validate on the report. The names
-- and exit codes of checks, the hand-off, loop summaries and telemetry are left out.
pub mod Verdict
pub mod Next
use lula.Prelude.{
  ℕ, zero, suc, String, Bool, true, false, not, ◌&&◌, ◌||◌, Option, none, some, List, [], ◌∷◌, ◌++◌,
  ltb, if◌then◌else◌, map, keep, any, all,
}
use lula.Prelude.Int.{pos}
use lula.Prelude.Texts.{is_blank, append}
use lula.Orchestrator.{RetryTarget, to_planner, elsewhere}
use lula.Verifier.{
  Text, Diagnostic, Result, extract_diagnostics, diagnostic_summary, first_nonempty_line,
}
use lula.Verifier.Retry.{
  FailureClass, architecture_mismatch, formal_verification_failed, budget_exceeded,
  test_failure_post_change, localized_verification_failure, repeated_verification_failure,
  verification_failed, acceptance_criteria_unmet, PlanAction, keep as keep_plan, amend,
  discard_reset, Recovery, discards, classify_retry,
}
use lula.Verifier.Acceptance.{
  AcceptanceCheck, Evidence, evaluate_acceptance_checks, acceptance_failure,
}
use lula.Verifier.Facts.{Fact, Failure, updated_recovery_facts}

pub record Check : Type 0 where
  pub tool : String
  pub summary : String

pub data ReportClass : Type 0 where
  passed schema_validation_failed : ReportClass
  classified : FailureClass → ReportClass

-- `has_packet` says that there is a recovery packet.
pub record Report : Type 0 where
  pub ok : Bool
  pub checks : List Check
  pub acceptance_ok : Bool
  pub acceptance_checks : List AcceptanceCheck
  pub retry_target : Option RetryTarget
  pub plan_action : PlanAction
  pub failure_class : ReportClass
  pub failure_fingerprint : String
  pub has_packet : Bool
  pub loop_summary : String

-- What the node reads of the state. `blocking` has the counts of the events of the auditor; a negative
-- count or loop acts as 0 does.
pub record VerifierState : Type 0 where
  pub tool_results : List Result
  pub blocking : List ℕ
  pub criteria : List String
  pub has_repo_context : Bool
  pub has_plan_steps : Bool
  pub current_loop : ℕ
  pub facts : List Fact
  pub context_reset_requested : Bool
  pub plan_discarded : Bool
  pub plan_discard_reason : String

-- What it changes.
pub record VerifierOut : Type 0 where
  pub report : Report
  pub retry_target : Option RetryTarget
  pub facts : List Fact
  pub context_reset_requested : Bool
  pub plan_discarded : Bool
  pub plan_discard_reason : String

class_name : FailureClass → String
class_name architecture_mismatch = "architecture_mismatch"
class_name formal_verification_failed = "formal_verification_failed"
class_name budget_exceeded = "budget_exceeded"
class_name test_failure_post_change = "test_failure_post_change"
class_name localized_verification_failure = "localized_verification_failure"
class_name repeated_verification_failure = "repeated_verification_failure"
class_name verification_failed = "verification_failed"
class_name acceptance_criteria_unmet = "acceptance_criteria_unmet"

pub schema_failed : Report
schema_failed = record {
  ok = false;
  checks = [];
  acceptance_ok = false;
  acceptance_checks = [];
  retry_target = some to_planner;
  plan_action = keep_plan;
  failure_class = schema_validation_failed;
  failure_fingerprint = "schema_validation_failed";
  has_packet = false;
  loop_summary = "schema_validation_failed";
}

-- The report of a failure with its recovery.
pub failed_report : List Check → List AcceptanceCheck → Recovery → String → Report
unfolding class_name
failed_report checks acceptance_checks recovery last_check = record {
  ok = false;
  checks = checks;
  acceptance_ok = false;
  acceptance_checks = acceptance_checks;
  retry_target = some recovery.retry_target;
  plan_action = recovery.plan_action;
  failure_class = classified recovery.failure_class;
  failure_fingerprint = recovery.failure_fingerprint;
  has_packet = true;
  loop_summary = append (class_name recovery.failure_class) (append ": " last_check);
}

pub passed_report : List AcceptanceCheck → Report
passed_report acceptance_checks = record {
  ok = true;
  checks = [];
  acceptance_ok = true;
  acceptance_checks = acceptance_checks;
  retry_target = none;
  plan_action = keep_plan;
  failure_class = passed;
  failure_fingerprint = "";
  has_packet = false;
  loop_summary = "verification_passed";
}

pub target_or_none : Option RetryTarget → RetryTarget
target_or_none none = elsewhere
target_or_none (some t) = t

-- discard_reason or "architecture_mismatch_detected"
or_mismatch : String → String
or_mismatch reason = if is_blank reason then "architecture_mismatch_detected" else reason

module _ (py : Text) (valid : Report → Bool) where
  first_diagnostic : List Diagnostic → String
  first_diagnostic [] = ""
  first_diagnostic (d ∷ ds) = diagnostic_summary py d

  pub check_of : Result → Check
  unfolding first_diagnostic
  check_of r =
      let summary = first_diagnostic (extract_diagnostics r) in
      record {
        tool = r.tool;
        summary = if is_blank summary then first_nonempty_line r.stderr else summary;
      }

  -- _build_checks
  pub build_checks : List Result → List Check
  unfolding check_of
  build_checks results = map check_of (keep (λ r. not r.ok) results)

  -- The checks that the events of the auditor add.
  pub audit_checks : List ℕ → List Check
  audit_checks blocking =
      map
        (λ n. record {
          tool = "glean_audit";
          summary =
              append "GLEAN audit found " (append (py.number (pos n)) " blocking violation(s)");
        })
        (keep (λ n. ltb 0 n) blocking)

  pub evidence_of : VerifierState → List Check → Evidence
  evidence_of s [] = record {
    has_repo_context = s.has_repo_context;
    has_plan_steps = s.has_plan_steps;
    successful_tool_results = any (λ r. r.ok) s.tool_results;
    verification_passed = true;
  }
  evidence_of s (c ∷ cs) = record {
    has_repo_context = s.has_repo_context;
    has_plan_steps = s.has_plan_steps;
    successful_tool_results = any (λ r. r.ok) s.tool_results;
    verification_passed = false;
  }

  -- The report and the reason to discard the plan.
  pub report_on : VerifierState → List Check → List AcceptanceCheck → Report × String
  unfolding failed_report passed_report
  report_on s (c ∷ cs) acceptance =
      let (recovery, reason) = classify_retry py s.tool_results s.current_loop in
      (failed_report (c ∷ cs) acceptance recovery c.summary, reason)
  report_on s [] acceptance =
      if all (λ a. a.ok) acceptance
      then (passed_report acceptance, "")
      else (let (recovery, reason, last_check) = acceptance_failure py acceptance in
          (failed_report [] acceptance recovery last_check, reason))

  pub validated : Report × String → Report × String
  unfolding schema_failed
  validated (r, reason) = if valid r then (r, reason) else (schema_failed, reason)

  pub checks_of : VerifierState → List Check
  checks_of s = build_checks s.tool_results ++ audit_checks s.blocking

  pub acceptance_of : VerifierState → List AcceptanceCheck
  unfolding evidence_of
  acceptance_of s = evaluate_acceptance_checks py (evidence_of s (checks_of s)) s.criteria

  facts_after : VerifierState → Report → List Fact
  unfolding target_or_none
  facts_after s r =
      if r.ok || not r.has_packet
      then s.facts
      else updated_recovery_facts s.facts
          (record {
            failure_fingerprint = r.failure_fingerprint;
            loop_summary = r.loop_summary;
            plan_action = r.plan_action;
            retry_target = target_or_none r.retry_target;
          })
          s.current_loop

  pub out_of : VerifierState → Report × String → VerifierOut
  unfolding facts_after or_mismatch
  out_of s (r, reason) =
      let discarded = not r.ok && discards r.plan_action in
      record {
        report = r;
        retry_target = r.retry_target;
        facts = facts_after s r;
        context_reset_requested = not r.ok && (discarded || s.context_reset_requested);
        plan_discarded = not r.ok && (discarded || s.plan_discarded);
        plan_discard_reason =
            if r.ok then "" else (if discarded then or_mismatch reason else s.plan_discard_reason);
      }

  -- The report before its validation.
  pub raw_report : VerifierState → Report × String
  unfolding report_on
  raw_report s = report_on s (checks_of s) (acceptance_of s)

  -- verifier, from the results of all calls on.
  pub verifier : VerifierState → VerifierOut
  unfolding validated out_of
  verifier s = out_of s (validated (raw_report s))

-- What a concrete report computes with.
unfoldable pub report_parts : Unit {0}
unfolding class_name schema_failed failed_report passed_report target_or_none or_mismatch
    first_diagnostic check_of build_checks audit_checks evidence_of report_on validated checks_of
    acceptance_of facts_after out_of raw_report verifier keep any all
report_parts = tt
