-- ===== src/Runs/Votes/Answered.antt =====
-- What a vote does to a run.
use lula.Prelude.{
  ℕ, suc, zero, String, ◌≡◌, ◌≢◌, ◌⊎◌, refl, ◌∙◌, ap, Bool, true, false, not, ◌&&◌, Option, none,
  some, List, [], ◌∷◌, ◌++◌, arith, if_cases, Bool-cases, inl, inr,
}
use lula.Prelude.Int.{ℤ}
use lula.Prelude.Texts.{is_blank}
use lula.Tokens.{non_empty_str, tokens_parts}
use lula.Approval.{ApprovalVote, ApprovalStatus, evaluate}
use lula.Runs.{
  RunStatus, RunRecord, refused, TraceReading, Decision, Outcome, refresh, approve,
  approve_challenge, reject, mismatches, resumed,
}
use lula.Runs.Reached.{IsConsistent, refresh-finished, created-IsConsistent}
use lula.Runs.Lifecycle.{
  Phase, active, awaiting, closed, phase, phase_at, phase_of, phase_of-awaiting, phase_of-closed,
}
use lula.Runs.Threads.{created, start, World, Reach}
use lula.Runs.Votes.{
  ApprovalDecision, record_vote, vote_payload, approved_world, rejected_world, answer_vote,
  cast_vote,
}

abbrev is_given : Option String → Bool
is_given none = false
is_given (some s) = true

-- Whether a pending approval can be granted: it has a challenge, and there is a checkpoint to resume.
pub can_resume : RunRecord → Bool
can_resume r =
    not (is_blank r.thread_id)
    && not (is_blank r.checkpoint_id)
    && is_given (non_empty_str r.pending_approval_details.challenge_id)

-- The phase that a decision takes an awaiting run to.
pub decided_phase : ApprovalStatus → Bool → Phase
decided_phase ApprovalStatus.pending can = awaiting
decided_phase ApprovalStatus.approved true = active
decided_phase ApprovalStatus.approved false = awaiting
decided_phase ApprovalStatus.rejected can = closed refused
decided_phase ApprovalStatus.timed_out can = closed refused

-- What the phase after a concrete vote computes with.
unfoldable pub vote_phase_parts : Unit {0}
unfolding can_resume decided_phase
vote_phase_parts = tt

-- An awaiting run is finished, and no thread is between the locks.
pending-finished :
    (w : World)
    → IsConsistent w
    → w.run.pending_approval ≡ true
    → (w.run.finished ≡ true) × (w.applying ≡ 0)
pending-finished w c p = elim (Bool-cases w.run.finished) [
  | inl f ↦ (f, elim c.between [ inl z ↦ z | inr h ↦ ground (arith, p, h.2) ])
  | inr f ↦ ground (arith, p, c.sound.live f)
]

phase-awaiting : (w : World) → w.run.pending_approval ≡ true → phase w ≡ awaiting
unfolding phase phase_at
phase-awaiting w p = phase_of-awaiting _ w.run.finished w.applying w.run.status p

phase_of-awaiting_inv :
    (p f : Bool) (n : ℕ) (s : RunStatus) → phase_of p f n s ≡ awaiting → p ≡ true
unfolding phase_of
phase_of-awaiting_inv true f n s e = refl
phase_of-awaiting_inv false false n s e = ground (arith, e)
phase_of-awaiting_inv false true zero s e = ground (arith, e)
phase_of-awaiting_inv false true (suc n) s e = ground (arith, e)

awaiting-pending : (w : World) → phase w ≡ awaiting → w.run.pending_approval ≡ true
unfolding phase phase_at
awaiting-pending w e = phase_of-awaiting_inv _ w.run.finished w.applying w.run.status e

module _ (vote : ApprovalVote) (comment : String) where
  payload : Decision
  payload = vote_payload vote comment

  challenge-phase :
      (w : World) (c : Option String)
      → w.run.pending_approval ≡ true
      → phase (approved_world w w.run (approve_challenge payload "" w.run c))
        ≡ decided_phase ApprovalStatus.approved
            (not (is_blank w.run.thread_id) && not (is_blank w.run.checkpoint_id) && is_given c)
  unfolding approved_world approve_challenge mismatches resumed payload vote_payload tokens_parts
      phase phase_at phase_of decided_phase
  challenge-phase w none p =
      phase_of-awaiting _ w.run.finished w.applying w.run.status p ∙ ground arith
  challenge-phase w (some c) p = elim (Bool-cases (is_blank w.run.thread_id)) [
    | inl t ↦ rw t (phase_of-awaiting _ w.run.finished w.applying w.run.status p)
    | inr t ↦ elim (Bool-cases (is_blank w.run.checkpoint_id)) [
      | inl u ↦ rw (t, u) (phase_of-awaiting _ w.run.finished w.applying w.run.status p)
      | inr u ↦ rw (t, u) refl
    ]
  ]

  approve-phase :
      (w : World)
      → w.run.pending_approval ≡ true
      → phase (approved_world w w.run (approve payload "" w.run))
        ≡ decided_phase ApprovalStatus.approved (can_resume w.run)
  unfolding approve can_resume
  approve-phase w p =
      if_cases
        (λ (o : Outcome).
          phase (approved_world w w.run o)
          ≡ decided_phase ApprovalStatus.approved (can_resume w.run))
        (not w.run.pending_approval) (λ e. ground (arith, p, e))
        (λ e. challenge-phase w (non_empty_str w.run.pending_approval_details.challenge_id) p)

  reject-phase :
      (w : World)
      → w.run.pending_approval ≡ true
      → w.applying ≡ 0
      → phase (rejected_world w w.run (reject payload "" w.run)) ≡ closed refused
  unfolding reject rejected_world phase phase_at phase_of
  reject-phase w p z =
      if_cases (λ (o : Outcome). phase (rejected_world w w.run o) ≡ closed refused)
        (not w.run.pending_approval) (λ e. ground (arith, p, e))
        (λ e. phase_of-closed false true w.applying refused refl refl z)

  module _ (poll : Option ℤ) (t : TraceReading) where
    answer_idle :
        (s : ApprovalStatus) (w : World)
        → w.run.pending_approval ≡ false
        → answer_vote vote comment poll t s w ≡ w
    unfolding answer_vote
    answer_idle ApprovalStatus.pending w p = refl
    answer_idle ApprovalStatus.approved w p = rw p refl
    answer_idle ApprovalStatus.rejected w p = rw p refl
    answer_idle ApprovalStatus.timed_out w p = rw p refl

    answer-phase :
        (s : ApprovalStatus) (w : World)
        → IsConsistent w
        → w.run.pending_approval ≡ true
        → phase (answer_vote vote comment poll t s w) ≡ decided_phase s (can_resume w.run)
    unfolding answer_vote decided_phase payload
    answer-phase s w c p = by s (pending-finished w c p)
      where
        same : w.run.finished ≡ true → refresh poll t w.run ≡ w.run
        same f = refresh-finished poll t w.run f

        by :
            (s : ApprovalStatus)
            → (w.run.finished ≡ true) × (w.applying ≡ 0)
            → phase (answer_vote vote comment poll t s w) ≡ decided_phase s (can_resume w.run)
        by ApprovalStatus.pending (f, z) = phase-awaiting w p
        by ApprovalStatus.approved (f, z) =
            if_cases (λ v. phase v ≡ decided_phase ApprovalStatus.approved (can_resume w.run))
              w.run.pending_approval
              (λ _.
                ap (λ r. phase (approved_world w r (approve payload "" r))) (same f)
                ∙ approve-phase w p)
              (λ e. ground (arith, p, e))
        by ApprovalStatus.rejected (f, z) =
            if_cases (λ v. phase v ≡ closed refused) w.run.pending_approval
              (λ _.
                ap (λ r. phase (rejected_world w r (reject payload "" r))) (same f)
                ∙ reject-phase w p z)
              (λ e. ground (arith, p, e))
        by ApprovalStatus.timed_out (f, z) =
            if_cases (λ v. phase v ≡ closed refused) w.run.pending_approval
              (λ _.
                ap (λ r. phase (rejected_world w r (reject payload "" r))) (same f)
                ∙ reject-phase w p z)
              (λ e. ground (arith, p, e))

    -- A vote on a run that was created is counted with the earlier ones. If the policy then approves, a
    -- run that awaits an approval becomes active, provided that it can be resumed, and awaits it still
    -- if not; if the policy rejects or has timed out, the run is closed as rejected; if it decides
    -- nothing, the run awaits the approval still. A run that awaits no approval is left as it is.
    pub cast_vote-phase :
        (argv : List String) (thread_id checkpoint_id : String) (elapsed : ℕ) (d : ApprovalDecision)
        (w : World)
        → Reach (start (created argv thread_id checkpoint_id)) w
        → ((phase w ≡ awaiting)
            × (phase (cast_vote vote comment poll t elapsed d w).1
                ≡ decided_phase
                    (evaluate d.policy (d.votes ++ vote ∷ []) elapsed)
                    (can_resume w.run)))
          ⊎ ((phase w ≢ awaiting) × ((cast_vote vote comment poll t elapsed d w).1 ≡ w))
    unfolding cast_vote record_vote
    cast_vote-phase argv thread_id checkpoint_id elapsed d w r =
        let c = created-IsConsistent argv thread_id checkpoint_id r in
        let s = evaluate d.policy (d.votes ++ vote ∷ []) elapsed in
        elim (Bool-cases w.run.pending_approval) [
          | inl p ↦ inl (phase-awaiting w p, answer-phase s w c p)
          | inr p ↦ inr (λ e. ground (arith, p, awaiting-pending w e), answer_idle s w p)
        ]
