-- ===== src/Verifier/Retry.antt =====
-- _classify_retry of py/src/lg_orch/nodes/verifier.py. The rationale, a text for each class, is left
-- out.
pub mod Table
use lula.Prelude.{
  ℕ, String, Bool, true, false, ◌&&◌, ◌||◌, Option, none, some, List, [], ◌∷◌, str_eq, leb,
  if◌then◌else◌,
}
use lula.Prelude.Members.{contains}
use lula.Prelude.Texts.{strip}
use lula.Orchestrator.{RetryTarget, to_router, to_planner, to_coder, to_context_builder}
use lula.Verifier.{
  Text, Result, extract_diagnostics, failure_fingerprint, is_architecture_mismatch,
  is_test_failure_post_change, patch_applied,
}

pub data FailureClass : Type 0 where
  architecture_mismatch formal_verification_failed budget_exceeded test_failure_post_change
        localized_verification_failure repeated_verification_failure verification_failed
        acceptance_criteria_unmet :
      FailureClass

pub data ContextScope : Type 0 where
  full_reset working_set : ContextScope

pub data PlanAction : Type 0 where
  keep amend discard_reset : PlanAction

-- plan_action == "discard_reset"
abbrev pub discards : PlanAction → Bool
discards discard_reset = true
discards keep = false
discards amend = false

pub record Recovery : Type 0 where
  pub failure_class : FailureClass
  pub failure_fingerprint : String
  pub retry_target : RetryTarget
  pub context_scope : ContextScope
  pub plan_action : PlanAction

-- A recovery within the working set.
pub within : FailureClass → String → RetryTarget → PlanAction → Recovery
within failure_class fingerprint target action = record {
  failure_class = failure_class;
  failure_fingerprint = fingerprint;
  retry_target = target;
  context_scope = working_set;
  plan_action = action;
}

-- The last result that is not ok: the first one of the reversed list.
pub last_failed : List Result → Option Result
last_failed [] = none
last_failed (r ∷ rs) = later_or_this r (last_failed rs)
  where
    later_or_this : Result → Option Result → Option Result
    later_or_this r (some later) = some later
    later_or_this r none = if r.ok then none else some r

module _ (py : Text) where
  pub error_tag : Result → String
  error_tag r = py.lower (strip r.error)

  pub exceeds_budget : Result → Bool
  exceeds_budget r =
      contains (error_tag r) ("tool_call_budget_exceeded" ∷ "patch_size_budget_exceeded" ∷ [])

  -- The body of the loop for a result that is not ok: the recovery and the reason to discard the plan.
  pub classify_failed : List Result → ℕ → Result → Recovery × String
  classify_failed results current_loop r =
      let ds = extract_diagnostics r in
      let fingerprint = failure_fingerprint py r ds in
      if is_architecture_mismatch py r ds
      then (
        record {
          failure_class = architecture_mismatch;
          failure_fingerprint = fingerprint;
          retry_target = to_context_builder;
          context_scope = full_reset;
          plan_action = discard_reset;
        },
        "architecture_mismatch_detected",
      )
      else if str_eq (error_tag r) "formal_verification_failed"
      then (
        within formal_verification_failed fingerprint to_planner amend,
        "formal_verification_failed",
      )
      else if exceeds_budget r
      then (within budget_exceeded fingerprint to_planner amend, error_tag r)
      else if is_test_failure_post_change py r ds results
      then (within test_failure_post_change fingerprint to_coder amend, "test_failure_post_change")
      else if patch_applied py results
      then (
        within localized_verification_failure fingerprint to_coder amend,
        "localized_verification_failure",
      )
      else if leb 2 current_loop
      then (
        within repeated_verification_failure fingerprint to_router amend,
        "repeated_verification_failure",
      )
      else (within verification_failed fingerprint to_planner keep, "verification_failed")

  classify_last : List Result → ℕ → Option Result → Recovery × String
  classify_last results current_loop (some r) = classify_failed results current_loop r
  classify_last results current_loop none =
      (within verification_failed "verification_failed" to_planner keep, "verification_failed")

  pub classify_retry : List Result → ℕ → Recovery × String
  unfolding classify_last
  classify_retry results current_loop = classify_last results current_loop (last_failed results)

-- What classifying a concrete failure computes with.
unfoldable pub retry_parts : Unit {0}
unfolding within last_failed error_tag exceeds_budget classify_failed classify_last classify_retry
retry_parts = tt
