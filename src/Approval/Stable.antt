-- ===== src/Approval/Stable.antt =====
-- A decision as more votes come in and time passes.
use lula.Prelude.{ℕ, ◌+◌, ◌≡◌, ◌⊎◌, List, ◌++◌, arith, count_if-append, any-append}
use lula.Approval.{
  ApprovalPolicy, timed, quorum, role, ApprovalVote, ApprovalStatus, rejected, timed_out, is_reject,
  filtered, rejects, evaluate,
}
use lula.Approval.Quorum.{filtered-append}

-- A decision that is rejected or timed out stays so, whatever votes come in later and however much
-- time passes.
pub evaluate_final :
    (policy : ApprovalPolicy) (votes later : List ApprovalVote) (t u : ℕ) (st : ApprovalStatus)
    → (st ≡ rejected) ⊎ (st ≡ timed_out)
    → evaluate policy votes t ≡ st
    → evaluate policy (votes ++ later) (t + u) ≡ st
unfolding evaluate
evaluate_final (timed p) votes later t u st f h = ground arith
evaluate_final (quorum p) votes later t u st f h =
    let a = filtered p.allowed_reviewers votes in
    let b = filtered p.allowed_reviewers later in
    ground (arith, filtered-append p.allowed_reviewers votes later, count_if-append is_reject a b)
evaluate_final (role p) votes later t u st f h =
    ground (arith, any-append (rejects p.required_roles) votes later)
