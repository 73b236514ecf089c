-- ===== src/Runs/Trace.antt =====
-- What the service reads of a trace file: _approval_state_from_trace (py/src/lg_orch/api/service.py).
-- A dict of approval details is its entries that the service reads.
use lula.Prelude.{
  String, Bool, true, false, not, ◌&&◌, Option, none, some, List, [], ◌∷◌, if◌then◌else◌,
}
use lula.Prelude.Texts.{strip, is_blank, strip_parts}

-- `is_empty` says that the dict has no entry at all.
pub record Details : Type 0 where
  pub is_empty : Bool
  pub challenge_id : Option String
  pub operation_class : Option String
  pub reason : Option String

abbrev pub no_details : Details
no_details = record { is_empty = true; challenge_id = none; operation_class = none; reason = none }

pub data Verdict : Type 0 where
  approved rejected : Verdict

-- An entry of the approval history.
pub record Entry : Type 0 where
  pub decision : Verdict
  pub actor : String
  pub rationale : String
  pub challenge_id : String

pub record ApprovalState : Type 0 where
  pub pending : Bool
  pub summary : String
  pub details : Details
  pub history : List Entry
  pub thread_id : String
  pub checkpoint_id : String

-- A tool result of the trace: whether the error of its artifacts is "approval_required", whatever the
-- case of its letters, and artifacts["approval"], where it is a dict; a missing one is an empty dict.
pub record TracedResult : Type 0 where
  pub approval_required : Bool
  pub approval : Option Details

-- The entries of a trace that are read; `pending` is `none` where approval has no such key.
pub record Trace : Type 0 where
  pub thread_id : String
  pub latest_checkpoint_id : String
  pub resume_checkpoint_id : String
  pub pending : Option Bool
  pub pending_details : Details
  pub history : List Entry
  pub summary : String
  pub tool_results : List TracedResult

-- The new text if it is not blank, and the old one otherwise.
pub or_old_text : String → String → String
or_old_text new old = if is_blank (strip new) then old else strip new

required_by : TracedResult → Option Details
required_by r = if r.approval_required then r.approval else none

later_or : Option Details → Option Details → Option Details
later_or none earlier = earlier
later_or (some d) earlier = some d

-- The loop over the reversed results: the details of the last one that requires an approval.
pub last_required : List TracedResult → Option Details
unfolding required_by later_or
last_required [] = none
last_required (r ∷ rs) = later_or (last_required rs) (required_by r)

state_with : (Details → String) → Trace → Bool → Details → ApprovalState
state_with approval_summary t pending details =
    let summary = strip t.summary in
    record {
      pending = pending;
      summary =
          if not details.is_empty && is_blank summary then approval_summary details else summary;
      details = details;
      history = t.history;
      thread_id = strip t.thread_id;
      checkpoint_id = strip (
          if is_blank t.latest_checkpoint_id
          then t.resume_checkpoint_id
          else t.latest_checkpoint_id);
    }

found_or : (Details → String) → Trace → Option Details → ApprovalState
found_or approval_summary t none = state_with approval_summary t false t.pending_details
found_or approval_summary t (some d) = state_with approval_summary t true d

by_pending : (Details → String) → Trace → Option Bool → ApprovalState
by_pending approval_summary t (some pending) =
    state_with approval_summary t pending t.pending_details
by_pending approval_summary t none =
    if t.pending_details.is_empty
    then found_or approval_summary t (last_required t.tool_results)
    else state_with approval_summary t false t.pending_details

-- `approval_summary` is _approval_summary, and `none` no trace.
pub approval_state_from_trace : (Details → String) → Option Trace → ApprovalState
unfolding by_pending found_or state_with
approval_state_from_trace approval_summary none = record {
  pending = false;
  summary = "";
  details = no_details;
  history = [];
  thread_id = "";
  checkpoint_id = "";
}
approval_state_from_trace approval_summary (some t) = by_pending approval_summary t t.pending

-- What reading a concrete trace computes with.
unfoldable pub trace_parts : Unit {0}
unfolding strip_parts or_old_text required_by later_or last_required state_with found_or by_pending
    approval_state_from_trace
trace_parts = tt
