-- ===== src/Executor.antt =====
-- The executor node (py/src/lg_orch/nodes/executor.py): the tool calls of a plan, checked one by
-- one and sent to the runner step by step. The runner, `fnmatch`, the text of an input and its size
-- as JSON are parameters; `sent` is what the runner has received. Events, routes, log lines and the
-- checkpoint that is attached to each input are left out, and so is the auditor's audit trail.
pub mod Payload
pub mod Checkpoint
pub mod Granted
pub mod Sent
pub mod Limits
mod Examples
use lula.Prelude.{
  ℕ, zero, suc, ◌+◌, String, Bool, true, false, not, ◌&&◌, ◌||◌, Option, none, some, List, [], ◌∷◌,
  ◌++◌, str_eq, ltb, if◌then◌else◌, length, any, all,
}
use lula.Tokens.{RawToken, dict, ApprovalToken, Signer, approval_token_for_challenge}
use lula.Glean.{GleanAuditor, GuidelineViolation, check_pre_execution, check_post_execution}
use lula.Executor.Payload.{
  ToolInput, Approvals, estimate_patch_bytes, apply_patch_changed_paths, path_matches_allowlist,
  approval_for_tool, payload_parts,
}
use lula.Executor.Checkpoint.{
  CheckpointState, SnapshotMeta, UndoMeta, note_results, checkpoint_parts,
}

pub record ToolCall : Type 0 where
  pub tool : String
  pub input : ToolInput

-- artifacts["error"] of a result that the executor makes.
pub data ErrorTag : Type 0 where
  tool_call_budget_exceeded approval_required write_path_not_allowed patch_size_budget_exceeded
        glean_blocked executor_failed :
      ErrorTag

pub record ToolResult : Type 0 where
  pub tool : String
  pub ok : Bool
  pub error : Option ErrorTag
  pub snapshot : Option SnapshotMeta
  pub undo : Option UndoMeta

-- _budget_failure_result, and the result of the `except`.
pub failure : String → ErrorTag → ToolResult
failure tool tag = record {
  tool = tool;
  ok = false;
  error = some tag;
  snapshot = none;
  undo = none;
}

-- What the executor reads of the state and of its surroundings. A limit of 0 is no limit, and a
-- negative one acts as 0 does. `run_batch` is the runner; `none` is an exception of the client.
pub record Env : Type 0 where
  pub max_tool_calls : ℕ
  pub max_patch_bytes : ℕ
  pub require_approval : Bool
  pub allowed_write_paths : List String
  pub approvals : Approvals
  pub resumed : Approvals
  -- The clock, the nonce and the secret of the tokens that the executor makes itself.
  pub signer : Signer
  pub fnmatch : String → String → Bool
  pub json_size : ToolInput → ℕ
  pub run_batch : List ToolCall → Option (List ToolResult)
  -- re.search, and the texts of inputs and results that the auditor searches.
  pub search : String → String → Bool
  pub input_text : ToolInput → String
  pub result_text : ToolResult → String

-- A call that may go to the runner, or the reason why it may not.
pub data Checked : Type 0 where
  accepted : ToolInput → Checked
  denied : ErrorTag → Checked

pub with_approval : ToolInput → ApprovalToken → ToolInput
with_approval input t = record input { approval = dict (some t.challenge_id) (some t.token) }

-- if max_patch_bytes > 0: ...
pub check_size : Env → ToolInput → Checked
check_size env input =
    if ltb 0 env.max_patch_bytes
      && ltb env.max_patch_bytes (estimate_patch_bytes input (env.json_size input))
    then denied patch_size_budget_exceeded
    else accepted input

pub all_match : Env → List String → Bool
all_match env paths = all (λ p. path_matches_allowlist env.fnmatch p env.allowed_write_paths) paths

check_changed : Env → ToolInput → Option (List String) → Checked
check_changed env input none = denied write_path_not_allowed
check_changed env input (some []) = denied write_path_not_allowed
check_changed env input (some (p ∷ ps)) =
    if all_match env (p ∷ ps) then check_size env input else denied write_path_not_allowed

check_paths : Env → ToolInput → List String → Checked
check_paths env input [] = check_size env input
check_paths env input (a ∷ more) = check_changed env input (apply_patch_changed_paths input)

check_approved : Env → ToolInput → Option ApprovalToken → Checked
check_approved env input none = denied approval_required
check_approved env input (some t) = check_paths env (with_approval input t) env.allowed_write_paths

own_token : Signer → ApprovalToken
own_token k = record {
  challenge_id = "approval:apply_patch";
  token = approval_token_for_challenge k "approval:apply_patch";
}

-- The guards of apply_patch.
pub check_patch : Env → ToolInput → Checked
unfolding check_approved check_paths check_changed
check_patch env input = check_approved env input (
    if env.require_approval
    then approval_for_tool env.approvals env.resumed "apply_patch" input
    else some (own_token env.signer))

pub check_call : Env → ToolCall → Checked
check_call env c = if str_eq c.tool "apply_patch" then check_patch env c.input else accepted c.input

-- The loop over the tools of a step: the calls to send, the results and the auditor so far, and
-- whether the execution stops.
pub record Collected : Type 0 where
  pub calls : List ToolCall
  pub results : List ToolResult
  pub auditor : Option GleanAuditor
  pub stop : Bool

audited :
    Env → String → ToolInput → Option GleanAuditor → Option GleanAuditor × List GuidelineViolation
audited env tool input none = (none, [])
audited env tool input (some a) =
    let (a', blocking) = check_pre_execution env.search tool (env.input_text input) a in
    (some a', blocking)

-- A call that passed the guards: it is kept, or the auditor blocks it and the loop goes on.
keep_or_block : ToolCall → Option GleanAuditor × List GuidelineViolation → Collected → Collected
keep_or_block c (a, []) s = record s { calls = s.calls ++ c ∷ []; auditor = a }
keep_or_block c (a, v ∷ vs) s = record s {
  results = s.results ++ failure c.tool glean_blocked ∷ [];
  auditor = a;
}

collect_one : Env → ToolCall → Checked → Collected → Collected
collect_one env c (denied tag) s = record s {
  calls = [];
  results = s.results ++ failure c.tool tag ∷ [];
  stop = true;
}
collect_one env c (accepted input) s =
    keep_or_block (record { tool = c.tool; input = input }) (audited env c.tool input s.auditor) s

pub collect : Env → List ToolCall → Collected → Collected
unfolding collect_one keep_or_block audited
collect env [] s = s
collect env (c ∷ cs) s =
    if s.stop then s else collect env cs (collect_one env c (check_call env c) s)

pub record ExecState : Type 0 where
  pub results : List ToolResult
  pub tool_calls_used : ℕ
  pub auditor : Option GleanAuditor
  pub checkpoint : CheckpointState
  pub scip_index_stale : Bool
  pub stop : Bool
  pub sent : List (List ToolCall)

audit_results : Env → List ToolResult → GleanAuditor → GleanAuditor
audit_results env [] a = a
audit_results env (r ∷ rs) a =
    audit_results env rs (check_post_execution env.search r.tool (env.result_text r) a).0

audit_all : Env → List ToolResult → Option GleanAuditor → Option GleanAuditor
audit_all env rs none = none
audit_all env rs (some a) = some (audit_results env rs a)

pub is_patched : ToolResult → Bool
is_patched r = str_eq r.tool "apply_patch" && r.ok

-- What the runner's answer to a batch does; `none` is the `except`.
after_batch : Env → List ToolCall → Option (List ToolResult) → ExecState → ExecState
after_batch env calls none s = record s {
  results = s.results ++ failure "batch_execute" executor_failed ∷ [];
  stop = true;
}
after_batch env calls (some answers) s = record s {
  results = s.results ++ answers;
  tool_calls_used = s.tool_calls_used + length calls;
  auditor = audit_all env answers s.auditor;
  checkpoint = note_results (λ r. r.snapshot) (λ r. r.undo) answers s.checkpoint;
  scip_index_stale = s.scip_index_stale || any is_patched answers;
}

send : Env → List ToolCall → ExecState → ExecState
send env [] s = s
send env (c ∷ cs) s =
    after_batch env (c ∷ cs) (env.run_batch (c ∷ cs)) (record s { sent = s.sent ++ (c ∷ cs) ∷ [] })

after_collect : Env → Collected → ExecState → ExecState
after_collect env r s =
    send env r.calls (record s { results = r.results; auditor = r.auditor; stop = r.stop })

-- The body of the loop over the steps of the plan, on the tools of one step.
pub run_step : Env → List ToolCall → ExecState → ExecState
unfolding after_collect send after_batch audit_all audit_results
run_step env tools s =
    if ltb 0 env.max_tool_calls && ltb env.max_tool_calls (s.tool_calls_used + length tools)
    then record s {
      results = s.results ++ failure "batch_execute" tool_call_budget_exceeded ∷ [];
      stop = true;
    }
    else after_collect env
        (collect env tools
          (record { calls = []; results = s.results; auditor = s.auditor; stop = false }))
        s

pub execute : Env → List (List ToolCall) → ExecState → ExecState
execute env [] s = s
execute env (tools ∷ steps) s =
    let rest = execute env steps (run_step env tools s) in if s.stop then s else rest

-- What an execution on concrete input computes with.
unfoldable pub executor_parts : Unit {0}
unfolding payload_parts checkpoint_parts failure with_approval check_size all_match check_changed
    check_paths check_approved own_token check_patch check_call audited keep_or_block collect_one
    collect audit_results audit_all is_patched after_batch send after_collect run_step execute any
    all
executor_parts = tt
