-- ===== src/Executor/Limits.antt =====
-- The budget of tool calls.
use lula.Prelude.{
  ◌+◌, ◌<◌, ◌≤◌, false, Option, none, some, List, [], ◌∷◌, arith, ltb, length, length-append,
  Bool-cases, if_both, lt→ltb, inl, inr,
}
use lula.Glean.{GleanAuditor, GuidelineViolation}
use lula.Executor.{
  ToolCall, ToolResult, Env, Checked, accepted, denied, check_call, Collected, collect, collect_one,
  keep_or_block, audited, ExecState, run_step, after_collect, send, after_batch, execute,
}

module _ (env : Env) where
  length-keep_or_block :
      (c : ToolCall) (r : Option GleanAuditor × List GuidelineViolation) (s : Collected)
      → length (keep_or_block c r s).calls ≤ length s.calls + 1
  unfolding keep_or_block
  length-keep_or_block c (a, []) s = omega (arith, length-append s.calls (c ∷ []))
  length-keep_or_block c (a, v ∷ vs) s = omega arith

  length-collect_one :
      (c : ToolCall) (r : Checked) (s : Collected)
      → length (collect_one env c r s).calls ≤ length s.calls + 1
  unfolding collect_one
  length-collect_one c (denied tag) s = omega arith
  length-collect_one c (accepted input) s =
      length-keep_or_block (record { tool = c.tool; input = input })
        (audited env c.tool input s.auditor) s

  length-collect :
      (cs : List ToolCall) (s : Collected)
      → length (collect env cs s).calls ≤ length s.calls + length cs
  unfolding collect
  length-collect [] s = omega arith
  length-collect (c ∷ cs) s =
      if_both (λ (r : Collected). length r.calls ≤ length s.calls + length (c ∷ cs)) s.stop
        (omega arith)
        (omega (
          arith,
          length-collect cs (collect_one env c (check_call env c) s),
          length-collect_one c (check_call env c) s,
        ))

  after_batch-used :
      (calls : List ToolCall) (r : Option (List ToolResult)) (s : ExecState)
      → (after_batch env calls r s).tool_calls_used ≤ s.tool_calls_used + length calls
  unfolding after_batch
  after_batch-used calls none s = omega arith
  after_batch-used calls (some answers) s = omega arith

  send-used :
      (calls : List ToolCall) (s : ExecState)
      → (send env calls s).tool_calls_used ≤ s.tool_calls_used + length calls
  unfolding send
  send-used [] s = omega arith
  send-used (c ∷ cs) s = after_batch-used (c ∷ cs) (env.run_batch (c ∷ cs)) _

  after_collect-used :
      (r : Collected) (s : ExecState)
      → (after_collect env r s).tool_calls_used ≤ s.tool_calls_used + length r.calls
  unfolding after_collect
  after_collect-used r s = send-used r.calls _

  run_step-used :
      (tools : List ToolCall) (s : ExecState)
      → 0 < env.max_tool_calls
      → s.tool_calls_used ≤ env.max_tool_calls
      → (run_step env tools s).tool_calls_used ≤ env.max_tool_calls
  unfolding run_step
  run_step-used tools s pos h =
      let start : Collected = record {
        calls = [];
        results = s.results;
        auditor = s.auditor;
        stop = false;
      } in
      let few = length-collect tools start in
      let sent = after_collect-used (collect env tools start) s in
      elim (Bool-cases (ltb env.max_tool_calls (s.tool_calls_used + length tools))) [
        | inl e ↦ rw (lt→ltb 0 env.max_tool_calls pos, e) h
        | inr e ↦
            let room : s.tool_calls_used + length tools ≤ env.max_tool_calls = ground arith in
            rw (lt→ltb 0 env.max_tool_calls pos, e) (omega (arith, few, sent, room))
      ]

  -- Where there is a limit, an execution that began within it never counts more tool calls than the
  -- limit.
  pub execute-used :
      (steps : List (List ToolCall)) (s : ExecState)
      → 0 < env.max_tool_calls
      → s.tool_calls_used ≤ env.max_tool_calls
      → (execute env steps s).tool_calls_used ≤ env.max_tool_calls
  unfolding execute
  execute-used [] s pos h = h
  execute-used (tools ∷ steps) s pos h =
      if_both (λ (r : ExecState). r.tool_calls_used ≤ env.max_tool_calls) s.stop h
        (execute-used steps (run_step env tools s) pos (run_step-used tools s pos h))
