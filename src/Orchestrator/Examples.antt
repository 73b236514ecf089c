-- ===== src/Orchestrator/Examples.antt =====
-- A run of the graph with one loop.
use lula.Prelude.{◌+◌, ◌*◌, ◌≤◌, refl, false, none}
use lula.Prelude.Int.{pos}
use lula.Budget.{no_halt, safe_max}
use lula.Budget.Bounds.{coerce-nothing}
use lula.Budget.Examples.{int_or_none}
use lula.Orchestrator.{
  Node, ingest, policy_gate, elsewhere, OrchState, run_gate, next_node, gates, works, Run, here,
  step,
}
use lula.Orchestrator.Halting.{Run-length}

abbrev first : OrchState int_or_none
first = record {
  loops = record { max_loops = none; current_loop = none };
  configured_max_loops = pos 1;
  plan_max_iterations = pos 0;
  configured_max_tool_calls = pos 8;
  configured_max_patch_bytes = pos 100;
  loops_remaining = 0;
  tool_calls_limit = 0;
  tool_calls_used = 0;
  patch_bytes_limit = 0;
  halt_reason = no_halt;
  context_reset_requested = false;
  retry_target = elsewhere;
  verification_ok = none;
}

abbrev gated : Node × OrchState int_or_none
gated = (next_node int_or_none policy_gate (run_gate int_or_none first), run_gate int_or_none first)

two_steps : Run int_or_none (ingest, first) 2 gated
unfolding next_node
two_steps =
    step
      (step here
        (works ingest first first (λ e. cc) (λ e. cc) (record { loops = refl; configured = refl })))
      (gates first)

Run-length_example : 2 ≤ 9 + 8 * safe_max (pos 1)
Run-length_example = Run-length int_or_none first 2 gated (coerce-nothing int_or_none 0) two_steps

-- The nodes do nothing, so that the verifier sends every run back until the budget is used up.
abbrev idle : Node → OrchState int_or_none → OrchState int_or_none
idle n s = s
