-- ===== src/Orchestrator.antt =====
-- py/src/lg_orch/graph.py and the loop budget in py/src/lg_orch/nodes/policy_gate.py: the graph of
-- nodes as a transition system. A node other than the gate may do anything to the state but to the
-- loop budget, which no other node writes: executor and verifier write `budgets` back with the keys
-- of their own changed, and ingest starts a run with empty budgets.
pub mod Halting
mod Examples
use lula.Prelude.{
  ℕ, zero, suc, ◌-◌, String, ◌≡◌, ◌≢◌, Bool, true, false, Option, none, some, if◌then◌else◌,
}
use lula.Prelude.Int.{ℤ, pos, negsuc, non_negative}
use lula.Budget.{
  PyValue, HaltReason, no_halt, max_loops_exhausted, plan_max_iterations_exhausted, LoopBudgets,
  LoopBudgetDecision, enforce_loop_budget,
}

pub data Node : Type 0 where
  ingest policy_gate context_builder router planner coder executor verifier reporter finish : Node

-- The values of `retry_target` that the route tells apart.
pub data RetryTarget : Type 0 where
  to_router to_planner to_coder to_context_builder elsewhere : RetryTarget

-- The parts of the state that the gate and the routes read.
pub record OrchState (py : PyValue) : Type 0 where
  pub loops : LoopBudgets py
  -- `int(_budget_max_loops)`, or 3 if that raises.
  pub configured_max_loops : ℤ
  -- `int(plan["max_iterations"])`, or 0 if it is missing or that raises.
  pub plan_max_iterations : ℤ
  pub configured_max_tool_calls : ℤ
  pub configured_max_patch_bytes : ℤ
  pub loops_remaining : ℕ
  pub tool_calls_limit : ℕ
  pub tool_calls_used : ℕ
  pub patch_bytes_limit : ℕ
  pub halt_reason : HaltReason
  pub context_reset_requested : Bool
  pub retry_target : RetryTarget
  -- `verification["ok"]`, where there is a verification.
  pub verification_ok : Option Bool

-- plan_max_iterations if plan_max_iterations >= 1 else None
positive : ℤ → Option ℤ
positive (pos zero) = none
positive (pos (suc n)) = some (pos (suc n))
positive (negsuc n) = none

unfoldable pub route_after_policy_gate : HaltReason → Bool → RetryTarget → Node
route_after_policy_gate max_loops_exhausted reset target = reporter
route_after_policy_gate plan_max_iterations_exhausted reset target = reporter
route_after_policy_gate no_halt true target = context_builder
route_after_policy_gate no_halt false to_router = router
route_after_policy_gate no_halt false to_planner = planner
route_after_policy_gate no_halt false to_coder = coder
route_after_policy_gate no_halt false to_context_builder = context_builder
route_after_policy_gate no_halt false elsewhere = context_builder

pub route_after_verifier : Option Bool → Node
route_after_verifier (some true) = reporter
route_after_verifier (some false) = policy_gate
route_after_verifier none = policy_gate

module _ (py : PyValue) where
  -- The gate's decision on a state.
  pub gate_decision : OrchState py → LoopBudgetDecision
  unfolding positive
  gate_decision s =
      enforce_loop_budget py s.loops s.configured_max_loops (positive s.plan_max_iterations)

  -- The loop budget of the node policy_gate.
  pub run_gate : OrchState py → OrchState py
  run_gate s =
      let d = gate_decision s in
      record s {
        loops = record {
          max_loops = py.of_int d.max_loops;
          current_loop = py.of_int d.current_loop;
        };
        loops_remaining = d.max_loops - d.current_loop;
        tool_calls_limit = non_negative s.configured_max_tool_calls;
        tool_calls_used = 0;
        patch_bytes_limit = non_negative s.configured_max_patch_bytes;
        halt_reason = d.halt_reason;
        verification_ok = if d.allow then s.verification_ok else some false;
      }

  -- The edges of build_graph, from the state that the node leaves.
  pub next_node : Node → OrchState py → Node
  next_node ingest s = policy_gate
  next_node policy_gate s =
      route_after_policy_gate s.halt_reason s.context_reset_requested s.retry_target
  next_node context_builder s = router
  next_node router s = planner
  next_node planner s = coder
  next_node coder s = executor
  next_node executor s = verifier
  next_node verifier s = route_after_verifier s.verification_ok
  next_node reporter s = finish
  next_node finish s = finish

  -- The graph run for at most so many steps, the work of each node but the gate given.
  pub run_graph :
      ((n : Node) → OrchState py → OrchState py) → ℕ → Node × OrchState py → Node × OrchState py
  run_graph work zero a = a
  run_graph work (suc steps) (finish, s) = (finish, s)
  run_graph work (suc steps) (policy_gate, s) =
      run_graph work steps (next_node policy_gate (run_gate s), run_gate s)
  run_graph work (suc steps) (n, s) = run_graph work steps (next_node n (work n s), work n s)

  -- What every node but the gate leaves alone.
  pub record KeepsBudget (s t : OrchState py) : Type 0 where
    pub loops : t.loops ≡ s.loops
    pub configured : t.configured_max_loops ≡ s.configured_max_loops

  pub data Step : Node × OrchState py → Node × OrchState py → Type 0 where
    gates :
        (s : OrchState py) → Step (policy_gate, s) (next_node policy_gate (run_gate s), run_gate s)
    works :
        (n : Node) (s t : OrchState py)
        → n ≢ policy_gate
        → n ≢ finish
        → KeepsBudget s t
        → Step (n, s) (next_node n t, t)

  -- A run of so many steps.
  pub data Run (a : Node × OrchState py) : ℕ → Node × OrchState py → Type 0 where
    here : Run a 0 a
    step : {n : ℕ} {b c : Node × OrchState py} → Run a n b → Step b c → Run a (suc n) c
