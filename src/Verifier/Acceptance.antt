-- ===== src/Verifier/Acceptance.antt =====
-- The acceptance checks of py/src/lg_orch/nodes/verifier.py: _evaluate_acceptance_checks and
-- _acceptance_failure. The criteria are the entries of the plan that are texts.
use lula.Prelude.{String, Bool, not, ◌&&◌, ◌||◌, List, [], ◌∷◌, if◌then◌else◌, map, keep}
use lula.Prelude.Texts.{strip, is_blank}
use lula.Memory.Fit.{take_chars}
use lula.Orchestrator.{to_planner}
use lula.Verifier.{Text, is_in, join}
use lula.Verifier.Retry.{Recovery, acceptance_criteria_unmet, amend, within}

pub record AcceptanceCheck : Type 0 where
  pub criterion : String
  pub ok : Bool
  pub detail : String

-- What the checks look at: whether the state has a context of the repository and steps of a plan,
-- whether a tool result is ok, and whether there was no failing check.
pub record Evidence : Type 0 where
  pub has_repo_context : Bool
  pub has_plan_steps : Bool
  pub successful_tool_results : Bool
  pub verification_passed : Bool

module _ (py : Text) where
  pub check_criterion : Evidence → String → AcceptanceCheck
  check_criterion e criterion =
      let lower = py.lower criterion in
      let path = e.verification_passed && (e.successful_tool_results || e.has_plan_steps) in
      if is_in "context" lower
      then record {
        criterion = criterion;
        ok = e.has_repo_context;
        detail = if e.has_repo_context then "repo_context_available" else "repo_context_missing";
      }
      else if is_in "bounded" lower || is_in "next step" lower
      then record {
        criterion = criterion;
        ok = e.has_plan_steps;
        detail = if e.has_plan_steps then "bounded_plan_available" else "bounded_plan_missing";
      }
      else if is_in "request" lower || is_in "answered" lower || is_in "executed" lower
      then record {
        criterion = criterion;
        ok = path;
        detail = if path then "request_path_available" else "request_path_incomplete";
      }
      else record {
        criterion = criterion;
        ok = e.verification_passed;
        detail = if e.verification_passed then "verification_passed" else "verification_failed";
      }

  pub evaluate_acceptance_checks : Evidence → List String → List AcceptanceCheck
  evaluate_acceptance_checks e criteria =
      map (check_criterion e) (keep (λ c. not (is_blank c)) (map strip criteria))

  first_criterion : List AcceptanceCheck → String
  first_criterion [] = ""
  first_criterion (c ∷ cs) =
      let s = strip c.criterion in if is_blank s then "acceptance criteria unmet" else s

  -- For checks of which one is not ok; the last part is the summary.
  pub acceptance_failure : List AcceptanceCheck → Recovery × String × String
  unfolding first_criterion
  acceptance_failure checks =
      let unmet = keep (λ c. not c.ok) checks in
      let seed = join "|" (map (λ c. strip c.criterion) unmet) in
      (
        within acceptance_criteria_unmet (take_chars 16 (py.digest seed)) to_planner amend,
        "acceptance_criteria_unmet",
        first_criterion unmet,
      )

-- What concrete acceptance checks compute with.
unfoldable pub acceptance_parts : Unit {0}
unfolding check_criterion evaluate_acceptance_checks first_criterion acceptance_failure keep
acceptance_parts = tt
