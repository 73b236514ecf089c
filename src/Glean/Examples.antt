-- ===== src/Glean/Examples.antt =====
-- A session with a search that looks for the pattern at the start of the subject.
use text.Mathlib.Text.{starts_with}
use lula.Prelude.{String, ◌≡◌, Bool, List, [], ◌∷◌, ◌++◌, not, keep}
use lula.Glean.{
  Guideline, GleanAuditor, pre, block, new_auditor, summary, is_pre, is_post, is_block,
  check_pre_execution, check_post_execution,
}
use lula.Glean.Sessions.{
  Call, add, before, found_by, check-found_by, run_calls, any_blocked, compliant_iff,
}

abbrev search : String → String → Bool
search pattern subject = starts_with pattern subject

abbrev no_push : Guideline
no_push = record { id = "no-force-push"; check = pre; pattern = "git push -f"; severity = block }

abbrev calls : List Call
calls = add no_push ∷ before "exec" "git push -f origin" ∷ []

abbrev auditor : GleanAuditor
auditor = record { guidelines = no_push ∷ []; violations = []; evidence = [] }

compliant_iff_example :
    (summary (run_calls search calls new_auditor)).compliant
    ≡ not (any_blocked search calls new_auditor)
compliant_iff_example = compliant_iff search calls

check-found_by_example :
    (check_pre_execution search "exec" "git push -f origin" auditor ≡ (
      record auditor {
        violations = [] ++ found_by search "exec" "git push -f origin" is_pre (no_push ∷ []);
      },
      keep is_block (found_by search "exec" "git push -f origin" is_pre (no_push ∷ [])),
    ))
    × (check_post_execution search "exec" "git push -f origin" auditor ≡ (
      record auditor {
        violations = [] ++ found_by search "exec" "git push -f origin" is_post (no_push ∷ []);
      },
      found_by search "exec" "git push -f origin" is_post (no_push ∷ []),
    ))
check-found_by_example = check-found_by search "exec" "git push -f origin" auditor
