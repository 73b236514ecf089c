-- ===== src/Runs.antt =====
-- One run of the remote API (RemoteAPIService, py/src/lg_orch/api/service.py): its record, the methods
-- that change it, and the threads that do so, as a transition system. Each section under `_lock` is one
-- step. What the trace file says and whether the process has ended are arguments of each reading.
-- Times, ids of processes, metrics, the run store and the log lines of the service are left out.
pub mod Trace
pub mod Argv
pub mod Threads
pub mod Invariant
pub mod Reached
pub mod Lifecycle
pub mod Settled
pub mod Votes
mod Examples
use lula.Prelude.{
  ℕ, zero, suc, String, Bool, true, false, not, ◌&&◌, ◌||◌, Option, none, some, List, [], ◌∷◌, ◌++◌,
  str_eq, if◌then◌else◌,
}
use lula.Prelude.Int.{ℤ, pos, negsuc}
use lula.Prelude.Texts.{strip, is_blank, append, strip_parts}
use lula.Tokens.{non_empty_str, tokens_parts}
use lula.Runs.Trace.{
  Details, no_details, Entry, Verdict, approved, rejected, ApprovalState, or_old_text, trace_parts,
}
use lula.Runs.Argv.{resume_argv, argv_parts}

pub data RunStatus : Type 0 where
  running cancelling suspended succeeded failed cancelled refused : RunStatus

-- `finished` says that finished_at is set, and `has_process` that there is a process.
pub record RunRecord : Type 0 where
  pub argv : List String
  pub has_process : Bool
  pub status : RunStatus
  pub finished : Bool
  pub exit_code : Option ℤ
  pub logs : List String
  pub cancel_requested : Bool
  pub thread_id : String
  pub checkpoint_id : String
  pub pending_approval : Bool
  pub pending_approval_summary : String
  pub pending_approval_details : Details
  pub approval_history : List Entry
  pub final : String

is_nil : List Entry → Bool
is_nil [] = true
is_nil (e ∷ es) = false

unfoldable pub apply_approval_state : ApprovalState → RunRecord → RunRecord
unfolding is_nil
apply_approval_state a r =
    let suspends = a.pending && not r.cancel_requested in
    record r {
      thread_id = or_old_text a.thread_id r.thread_id;
      checkpoint_id = or_old_text a.checkpoint_id r.checkpoint_id;
      approval_history = if is_nil a.history then r.approval_history else a.history;
      status = if suspends then suspended else r.status;
      pending_approval = suspends;
      pending_approval_summary = if suspends then strip a.summary else "";
      pending_approval_details = if suspends then a.details else no_details;
    }

pub is_zero_code : ℤ → Bool
is_zero_code (pos zero) = true
is_zero_code (pos (suc n)) = false
is_zero_code (negsuc n) = false

-- What both _refresh_record_locked and _mark_finished do at the end of the process.
unfoldable pub finish : ℤ → RunRecord → RunRecord
unfolding is_zero_code
finish code r = record r {
  exit_code = some code;
  finished = true;
  status =
      if r.cancel_requested then cancelled else (if is_zero_code code then succeeded else failed);
}

-- What a reading of the trace file gives.
pub record TraceReading : Type 0 where
  pub approval : ApprovalState
  pub final : String

pub refresh_polled : Option ℤ → TraceReading → RunRecord → RunRecord
refresh_polled none t r = r
refresh_polled (some code) t r =
    let r' = apply_approval_state t.approval (finish code r) in
    record r' { final = or_old_text t.final r'.final }

-- _refresh_record_locked; `poll` is the answer of process.poll().
pub refresh : Option ℤ → TraceReading → RunRecord → RunRecord
unfolding refresh_polled
refresh poll t r = if r.finished || not r.has_process then r else refresh_polled poll t r

-- The part of cancel_run under the lock.
pub cancel_run : Option ℤ → TraceReading → RunRecord → RunRecord
cancel_run poll t r =
    let r' = refresh poll t r in
    if r'.finished || r'.cancel_requested
    then r'
    else record r' { cancel_requested = true; status = cancelling }

pub data RunError : Type 0 where
  approval_not_pending approval_challenge_missing challenge_id_mismatch resume_checkpoint_missing :
      RunError

-- The body of approve_run or reject_run: the record, and the error that is raised.
pub data Outcome : Type 0 where
  changed : RunRecord → Outcome
  error : RunError → Outcome

-- payload["actor"], payload["rationale"] and payload["challenge_id"], where they are texts.
pub record Decision : Type 0 where
  pub actor : Option String
  pub rationale : Option String
  pub challenge_id : Option String

pub or_text : Option String → String → String
or_text none default = default
or_text (some s) default = s

-- _non_empty_str(payload.get("actor")) or auth_subject or "operator"
pub actor_of : Decision → String → String
actor_of d auth_subject =
    or_text (non_empty_str d.actor) (if is_blank auth_subject then "operator" else auth_subject)

pub mismatches : Option String → String → Bool
mismatches none challenge = false
mismatches (some given) challenge = not (str_eq given challenge)

pub resumed : String → Entry → RunRecord → RunRecord
resumed actor e r = record r {
  argv = resume_argv r.thread_id r.checkpoint_id r.argv;
  has_process = true;
  finished = false;
  exit_code = none;
  status = running;
  pending_approval = false;
  pending_approval_summary = "";
  pending_approval_details = no_details;
  approval_history = r.approval_history ++ e ∷ [];
  logs = r.logs ++ append "[approval] approved by " actor ∷ [];
}

pub approve_challenge : Decision → String → RunRecord → Option String → Outcome
approve_challenge d auth_subject r none = error approval_challenge_missing
approve_challenge d auth_subject r (some challenge) =
    if mismatches (non_empty_str d.challenge_id) challenge
    then error challenge_id_mismatch
    else if is_blank r.thread_id || is_blank r.checkpoint_id
    then error resume_checkpoint_missing
    else changed (
        resumed (actor_of d auth_subject)
          (record {
            decision = approved;
            actor = actor_of d auth_subject;
            rationale = or_text (non_empty_str d.rationale) "";
            challenge_id = challenge;
          })
          r)

-- approve_run on a record that was refreshed.
unfoldable pub approve : Decision → String → RunRecord → Outcome
unfolding approve_challenge resumed mismatches
approve d auth_subject r =
    if not r.pending_approval
    then error approval_not_pending
    else approve_challenge d auth_subject r (non_empty_str r.pending_approval_details.challenge_id)

-- reject_run on a record that was refreshed.
pub reject : Decision → String → RunRecord → Outcome
reject d auth_subject r =
    let actor = actor_of d auth_subject in
    if not r.pending_approval
    then error approval_not_pending
    else changed (record r {
      pending_approval = false;
      pending_approval_summary = "";
      pending_approval_details = no_details;
      approval_history =
          r.approval_history
          ++ record {
            decision = rejected;
            actor = actor;
            rationale = or_text (non_empty_str d.rationale) "";
            challenge_id = or_text (non_empty_str r.pending_approval_details.challenge_id) "";
          }
            ∷ [];
      finished = true;
      exit_code = some (pos 1);
      status = refused;
      logs = r.logs ++ append "[approval] rejected by " actor ∷ [];
    })

-- What the answer to a concrete approval computes with.
unfoldable pub runs_parts : Unit {0}
unfolding is_nil apply_approval_state is_zero_code finish refresh_polled refresh cancel_run or_text
    actor_of mismatches resumed approve_challenge approve reject
runs_parts = tt
