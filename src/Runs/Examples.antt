-- ===== src/Runs/Examples.antt =====
-- A run that stops for an approval, is approved, and succeeds; and the command line it is resumed with.
use lula.Prelude.{◌++◌, ◌≢◌, String, ◌≡◌, refl, true, false, Option, none, some, List, [], ◌∷◌}
use lula.Prelude.Int.{pos}
use lula.Prelude.Texts.{strip_parts}
use lula.Tokens.{tokens_parts}
use lula.Runs.Trace.{no_details, ApprovalState, trace_parts}
use lula.Runs.Argv.{resume_argv, argv_parts}
use lula.Runs.{
  RunStatus, running, TraceReading, Decision, Outcome, changed, error, runs_parts, finish,
  apply_approval_state, approve, cancel_run,
}
use lula.Runs.Threads.{
  World, created, start, mark_finished, marks, applies, cancels, Reach, here, next,
}
use lula.Prelude.{◌⊎◌}
use lula.Approval.{Action, ApprovalStatus, ApprovalVote, quorum, evaluate, approval_parts}
use lula.Runs.Votes.{ApprovalDecision, set_approval_policy, record_vote, cast_vote, votes_parts}
use lula.Runs.Votes.Answered.{can_resume, decided_phase, vote_phase_parts, cast_vote-phase}
use lula.Runs.Reached.{IsConsistent, created-IsConsistent}
use lula.Runs.Lifecycle.{active, awaiting, closed, phase, phase_of, phase_at}
use lula.Runs.Settled.{closed-status}

abbrev command : List String
command = "lula" ∷ "run" ∷ "--resume" ∷ "--thread-id" ∷ "t0" ∷ "fix it" ∷ []

resumed_command :
    resume_argv "t1" "c1" command
    ≡ "lula" ∷ "run" ∷ "fix it" ∷ "--resume" ∷ "--thread-id" ∷ "t1" ∷ "--checkpoint-id" ∷ "c1" ∷ []
unfolding argv_parts
resumed_command = refl

abbrev asking : ApprovalState
asking = record {
  pending = true;
  summary = "approval for apply_patch";
  details = record {
    is_empty = false;
    challenge_id = some "ch";
    operation_class = some "apply_patch";
    reason = none;
  };
  history = [];
  thread_id = "t1";
  checkpoint_id = "c1";
}

abbrev silent : ApprovalState
silent = record {
  pending = false;
  summary = "";
  details = no_details;
  history = [];
  thread_id = "";
  checkpoint_id = "";
}

abbrev begun : World
begun = start (created command "" "")

abbrev stopped : World
stopped = mark_finished 0 (pos 0) begun

abbrev waiting : World
waiting = record stopped { run = apply_approval_state asking stopped.run; applying = 0 }

to_waiting : Reach begun waiting
unfolding start mark_finished created
to_waiting = next (next here (marks begun 0 (pos 0) refl)) (applies stopped 0 asking refl)

created-IsConsistent_example : IsConsistent waiting
created-IsConsistent_example = created-IsConsistent command "" "" to_waiting

waiting_phase : phase waiting ≡ awaiting
unfolding phase phase_at phase_of start mark_finished created finish apply_approval_state
waiting_phase = refl

yes : Decision
yes = record { actor = some "ann"; rationale = none; challenge_id = none }

abbrev reading : TraceReading
reading = record { approval = asking; final = "done" }

abbrev over : World
over = record stopped { run = apply_approval_state silent stopped.run; applying = 0 }

to_over : Reach begun over
unfolding start mark_finished created
to_over = next (next here (marks begun 0 (pos 0) refl)) (applies stopped 0 silent refl)

-- A request to cancel, which comes too late.
abbrev later : World
later = record over { run = cancel_run (some (pos 1)) reading over.run }

to_later : Reach over later
to_later = next here (cancels over (some (pos 1)) reading)

over_phase : phase over ≡ closed over.run.status
unfolding phase phase_at phase_of start mark_finished created finish apply_approval_state
over_phase = refl

closed-status_example :
    (later.run.pending_approval ≡ false)
    × (later.run.finished ≡ true)
    × (later.run.status ≡ over.run.status)
closed-status_example = closed-status command "" "" to_over over_phase to_later

status_after : Outcome → Option RunStatus
status_after (changed r) = some r.status
status_after (error e) = none

approved_status : status_after (approve yes "" waiting.run) ≡ some running
unfolding status_after start mark_finished created finish runs_parts argv_parts trace_parts
    tokens_parts strip_parts yes
approved_status = refl

abbrev by : String → Action → ApprovalVote
by reviewer action = record { reviewer_id = reviewer; role = none; action = action }

abbrev one_of_two : ApprovalDecision
one_of_two =
    set_approval_policy
      (quorum (record { required_approvals = 1; required_rejections = 2; allowed_reviewers = [] }))

cast_vote-phase_example :
    ((phase waiting ≡ awaiting)
      × (phase
            (cast_vote (by "ann" Action.approve) "" (some (pos 0)) reading 5 one_of_two waiting).1
          ≡ decided_phase
              (evaluate one_of_two.policy (one_of_two.votes ++ by "ann" Action.approve ∷ []) 5)
              (can_resume waiting.run)))
    ⊎ ((phase waiting ≢ awaiting)
        × ((cast_vote (by "ann" Action.approve) "" (some (pos 0)) reading 5 one_of_two waiting).1
            ≡ waiting))
cast_vote-phase_example =
    cast_vote-phase (by "ann" Action.approve) "" (some (pos 0)) reading command "" "" 5 one_of_two
      waiting to_waiting

approved_phase :
    decided_phase
      (evaluate one_of_two.policy (one_of_two.votes ++ by "ann" Action.approve ∷ []) 5)
      (can_resume waiting.run)
    ≡ active
unfolding vote_phase_parts votes_parts approval_parts tokens_parts start mark_finished created
    finish apply_approval_state trace_parts strip_parts
approved_phase = refl

-- A later vote, though it rejects, still counts the approval of the earlier request.
stale_votes :
    (record_vote
      (by "bob" Action.reject)
      9
      (record_vote (by "ann" Action.approve) 5 one_of_two)).status
    ≡ ApprovalStatus.approved
unfolding votes_parts approval_parts
stale_votes = refl
