-- ===== src/Approval/Examples.antt =====
-- The approval policies on small votes.
use lula.Prelude.{
  ◌+◌, ◌≡◌, ◌≢◌, ◌↔◌, inl, refl, true, false, some, List, [], ◌∷◌, ◌++◌, any, all, String, keep,
  count_if,
}
use lula.Prelude.Members.{contains}
use lula.Approval.{
  Action, approve, reject, ApprovalVote, RoleApprovalPolicy, QuorumApprovalPolicy, quorum, approved,
  rejected, evaluate, evaluate_role, rejects, filtered,
}
use lula.Approval.Roles.{has_approval, evaluate_role-all}
use lula.Approval.Stable.{evaluate_final}

abbrev vote : String → String → Action → ApprovalVote
vote who role action = record { reviewer_id = who; role = some role; action = action }

abbrev yes_votes : List ApprovalVote
yes_votes = vote "ann" "security" approve ∷ vote "bob" "lead" approve ∷ []

abbrev no_votes : List ApprovalVote
no_votes = vote "cyd" "lead" reject ∷ []

abbrev both_roles : RoleApprovalPolicy
both_roles = record { required_roles = "security" ∷ "lead" ∷ []; require_all_roles = true }

abbrev two_of_three : QuorumApprovalPolicy
two_of_three = record {
  required_approvals = 2;
  required_rejections = 1;
  allowed_reviewers = "ann" ∷ "bob" ∷ "cyd" ∷ [];
}

evaluate_role-all_example : (evaluate_role both_roles yes_votes ≡ approved) ↔ (
    (both_roles.required_roles ≢ [])
    × (any (rejects both_roles.required_roles) yes_votes ≡ false)
    × (all (λ r. has_approval r yes_votes) both_roles.required_roles ≡ true))
evaluate_role-all_example = evaluate_role-all both_roles yes_votes refl

evaluate_final_example : evaluate (quorum two_of_three) (no_votes ++ yes_votes) (3 + 4) ≡ rejected
unfolding evaluate filtered contains keep count_if
evaluate_final_example =
    evaluate_final (quorum two_of_three) no_votes yes_votes 3 4 rejected (inl refl) refl
