-- ===== src/Approval.antt =====
-- py/src/lg_orch/approval_policy.py: the approval policies, the votes and their evaluator.
-- Seconds are natural numbers of any unit that the timeout and the elapsed time share: they are
-- only compared. A negative threshold of a quorum acts as 0 does, so thresholds are natural numbers.
-- The fields `timestamp` and `comment` of a vote are not read by the evaluator and are left out.
pub mod Quorum
pub mod Roles
pub mod Stable
mod Examples
use lula.Prelude.{
  ℕ, String, Bool, true, false, not, ◌&&◌, ◌||◌, Option, none, some, List, [], ◌∷◌, ◌++◌, leb,
  if◌then◌else◌, keep, count_if, any, all, map,
}
use lula.Prelude.Members.{contains}

pub data Action : Type 0 where
  approve reject : Action

pub data ApprovalStatus : Type 0 where
  pending approved rejected timed_out : ApprovalStatus

pub record TimedApprovalPolicy : Type 0 where
  pub timeout_seconds : ℕ
  pub auto_action : Action

pub record QuorumApprovalPolicy : Type 0 where
  pub required_approvals : ℕ
  pub required_rejections : ℕ
  pub allowed_reviewers : List String

pub record RoleApprovalPolicy : Type 0 where
  pub required_roles : List String
  pub require_all_roles : Bool

pub data ApprovalPolicy : Type 0 where
  timed : TimedApprovalPolicy → ApprovalPolicy
  quorum : QuorumApprovalPolicy → ApprovalPolicy
  role : RoleApprovalPolicy → ApprovalPolicy

pub record ApprovalVote : Type 0 where
  pub reviewer_id : String
  pub role : Option String
  pub action : Action

abbrev pub is_approve : ApprovalVote → Bool
is_approve v = elim v.action [ approve ↦ true | reject ↦ false ]

abbrev pub is_reject : ApprovalVote → Bool
is_reject v = elim v.action [ approve ↦ false | reject ↦ true ]

pub evaluate_timed : TimedApprovalPolicy → ℕ → ApprovalStatus
evaluate_timed p elapsed_seconds =
    if leb p.timeout_seconds elapsed_seconds
    then elim p.auto_action [ approve ↦ approved | reject ↦ timed_out ]
    else pending

-- The votes that count: all of them where no reviewer is named.
pub filtered : List String → List ApprovalVote → List ApprovalVote
filtered [] votes = votes
filtered (r ∷ rs) votes = keep (λ v. contains v.reviewer_id (r ∷ rs)) votes

pub evaluate_quorum : QuorumApprovalPolicy → List ApprovalVote → ApprovalStatus
evaluate_quorum p votes =
    let counted = filtered p.allowed_reviewers votes in
    let approvals = count_if is_approve counted in
    let rejections = count_if is_reject counted in
    if leb p.required_rejections rejections
    then rejected
    else if leb p.required_approvals approvals
    then approved
    else pending

-- vote.role in required_set
abbrev pub in_roles : List String → Option String → Bool
in_roles roles none = false
in_roles roles (some r) = contains r roles

abbrev pub rejects : List String → ApprovalVote → Bool
rejects roles v = is_reject v && in_roles roles v.role

abbrev pub approves : List String → ApprovalVote → Bool
approves roles v = is_approve v && in_roles roles v.role

abbrev role_list : Option String → List String
role_list none = []
role_list (some r) = r ∷ []

-- The set of approving roles, as a list that may name a role twice.
pub approving_roles : List String → List ApprovalVote → List String
approving_roles roles [] = []
approving_roles roles (v ∷ votes) =
    let rest = approving_roles roles votes in
    if approves roles v then role_list v.role ++ rest else rest

abbrev pub is_empty : List String → Bool
is_empty [] = true
is_empty (x ∷ xs) = false

pub evaluate_role : RoleApprovalPolicy → List ApprovalVote → ApprovalStatus
evaluate_role p votes =
    let approving = approving_roles p.required_roles votes in
    if any (rejects p.required_roles) votes
    then rejected
    else if p.require_all_roles
    then (if not (is_empty p.required_roles) && all (λ r. contains r approving) p.required_roles
        then approved
        else pending)
    else (if not (is_empty approving) then approved else pending)

pub evaluate : ApprovalPolicy → List ApprovalVote → ℕ → ApprovalStatus
unfolding evaluate_timed evaluate_quorum evaluate_role
evaluate (timed p) votes elapsed_seconds = evaluate_timed p elapsed_seconds
evaluate (quorum p) votes elapsed_seconds = evaluate_quorum p votes
evaluate (role p) votes elapsed_seconds = evaluate_role p votes

-- What evaluating a concrete policy computes with.
unfoldable pub approval_parts : Unit {0}
unfolding evaluate_timed filtered evaluate_quorum approving_roles evaluate_role evaluate keep
    count_if any all contains
approval_parts = tt
