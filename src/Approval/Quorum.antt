-- ===== src/Approval/Quorum.antt =====
-- Quorum decisions read two counts of the votes that are allowed.
use lula.Prelude.{
  String, ◌≡◌, ◌≢◌, refl, false, List, [], ◌∷◌, ◌++◌, arith, keep, count_if-append, keep-append,
}
use lula.Prelude.Members.{contains}
use lula.Approval.{
  QuorumApprovalPolicy, ApprovalVote, is_approve, is_reject, filtered, evaluate_quorum,
}

pub filtered-append :
    (rs : List String) (xs ys : List ApprovalVote)
    → filtered rs (xs ++ ys) ≡ filtered rs xs ++ filtered rs ys
unfolding filtered
filtered-append [] xs ys = refl
filtered-append (r ∷ rs) xs ys = keep-append (λ v. contains v.reviewer_id (r ∷ rs)) xs ys

-- The votes may be split anywhere and their parts exchanged: a quorum does not depend on the order.
pub evaluate_quorum-swap :
    (p : QuorumApprovalPolicy) (xs ys : List ApprovalVote)
    → evaluate_quorum p (xs ++ ys) ≡ evaluate_quorum p (ys ++ xs)
unfolding evaluate_quorum
evaluate_quorum-swap p xs ys =
    let a = filtered p.allowed_reviewers xs in
    let b = filtered p.allowed_reviewers ys in
    ground (
      arith,
      filtered-append p.allowed_reviewers xs ys,
      filtered-append p.allowed_reviewers ys xs,
      count_if-append is_approve a b,
      count_if-append is_approve b a,
      count_if-append is_reject a b,
      count_if-append is_reject b a,
    )

-- A vote of a reviewer who is not among those named changes nothing.
pub evaluate_quorum-outsider :
    (p : QuorumApprovalPolicy) (v : ApprovalVote) (votes : List ApprovalVote)
    → p.allowed_reviewers ≢ []
    → contains v.reviewer_id p.allowed_reviewers ≡ false
    → evaluate_quorum p (v ∷ votes) ≡ evaluate_quorum p votes
unfolding evaluate_quorum filtered keep
evaluate_quorum-outsider p v votes named out = ground arith
