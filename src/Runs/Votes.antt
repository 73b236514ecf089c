-- ===== src/Runs/Votes.antt =====
-- Votes on a run: cast_vote of py/src/lg_orch/api/service.py, which evaluates the policy of a run
-- (lula.Approval) and then answers its pending approval.
pub mod Answered
use lula.Prelude.{
  ℕ, suc, String, Bool, true, false, Option, none, some, List, [], ◌∷◌, ◌++◌, if◌then◌else◌,
}
use lula.Prelude.Int.{ℤ}
use lula.Approval.{ApprovalPolicy, ApprovalVote, ApprovalStatus, evaluate}
use lula.Runs.{RunRecord, TraceReading, Decision, Outcome, changed, error, refresh, approve, reject}
use lula.Runs.Threads.{World}

pub record ApprovalDecision : Type 0 where
  pub status : ApprovalStatus
  pub policy : ApprovalPolicy
  pub votes : List ApprovalVote
  pub resolved : Bool

-- set_approval_policy
pub set_approval_policy : ApprovalPolicy → ApprovalDecision
set_approval_policy policy = record {
  status = ApprovalStatus.pending;
  policy = policy;
  votes = [];
  resolved = false;
}

is_pending : ApprovalStatus → Bool
is_pending ApprovalStatus.pending = true
is_pending ApprovalStatus.approved = false
is_pending ApprovalStatus.rejected = false
is_pending ApprovalStatus.timed_out = false

-- The part of cast_vote under the lock.
pub record_vote : ApprovalVote → ℕ → ApprovalDecision → ApprovalDecision
unfolding is_pending
record_vote vote elapsed d =
    let votes = d.votes ++ vote ∷ [] in
    let status = evaluate d.policy votes elapsed in
    record d {
      status = status;
      votes = votes;
      resolved = if is_pending status then d.resolved else true;
    }

-- What counting concrete votes computes with.
unfoldable pub votes_parts : Unit {0}
unfolding set_approval_policy is_pending record_vote
votes_parts = tt

-- The payload of the vote of a reviewer.
pub vote_payload : ApprovalVote → String → Decision
vote_payload vote comment = record {
  actor = some vote.reviewer_id;
  rationale = some comment;
  challenge_id = none;
}

-- approve_run; an error is suppressed, and leaves the record refreshed.
pub approved_world : World → RunRecord → Outcome → World
approved_world w refreshed (changed r) = record w { run = r; capturing = suc w.capturing }
approved_world w refreshed (error e) = record w { run = refreshed }

pub rejected_world : World → RunRecord → Outcome → World
rejected_world w refreshed (changed r) = record w { run = r }
rejected_world w refreshed (error e) = record w { run = refreshed }

module _ (vote : ApprovalVote) (comment : String) (poll : Option ℤ) (t : TraceReading) where
  -- What cast_vote does on a new status.
  pub answer_vote : ApprovalStatus → World → World
  unfolding approved_world rejected_world vote_payload
  answer_vote ApprovalStatus.pending w = w
  answer_vote ApprovalStatus.approved w =
      let r = refresh poll t w.run in
      if w.run.pending_approval
      then approved_world w r (approve (vote_payload vote comment) "" r)
      else w
  answer_vote ApprovalStatus.rejected w =
      let r = refresh poll t w.run in
      if w.run.pending_approval
      then rejected_world w r (reject (vote_payload vote comment) "" r)
      else w
  answer_vote ApprovalStatus.timed_out w =
      let r = refresh poll t w.run in
      if w.run.pending_approval
      then rejected_world w r (reject (vote_payload vote comment) "" r)
      else w

  pub cast_vote : ℕ → ApprovalDecision → World → ApprovalDecision × World
  cast_vote elapsed d w = let d' = record_vote vote elapsed d in (d', answer_vote d'.status w)
