-- ===== src/Orchestrator/Halting.antt =====
-- How long a run of the graph can be, and that it comes to its end.
use lula.Prelude.{
  ℕ, ◌+◌, ◌-◌, ◌*◌, ◌≤◌, ◌<◌, ◌≡◌, ◌≢◌, refl, sym, ltb→lt, ◌∙◌, Bool, Option, arith, Bool-cases,
  inl, inr,
}
use mathlib.Core.Path.{ap₂}
use lula.Prelude.Int.{ℤ}
use lula.Budget.{PyValue, HaltReason, no_halt, LoopBudgets, safe_max, coerce_non_negative_int}
use lula.Budget.Bounds.{enforce_loop_budget_bounds, coerce-of_int}
use lula.Orchestrator.{
  Node, ingest, policy_gate, context_builder, router, planner, coder, executor, verifier, reporter,
  finish, OrchState, positive, route_after_policy_gate, route_after_verifier, RetryTarget,
  gate_decision, run_gate, next_node, Step, gates, works, Run, here, step,
}

-- How far a node is from the next pass of the gate, or from the end.
distance : Node → ℕ
distance ingest = 9
distance context_builder = 8
distance router = 7
distance planner = 6
distance coder = 5
distance executor = 4
distance verifier = 3
distance policy_gate = 2
distance reporter = 1
distance finish = 0

route_distance :
    (h : HaltReason) (reset : Bool) (target : RetryTarget)
    → distance (route_after_policy_gate h reset target) ≤ 8
unfolding route_after_policy_gate distance
route_distance h reset target = ground arith

halted_distance :
    (h : HaltReason) (reset : Bool) (target : RetryTarget)
    → h ≢ no_halt
    → distance (route_after_policy_gate h reset target) ≡ 1
unfolding route_after_policy_gate distance
halted_distance h reset target n = ground arith

verifier_distance : (ok : Option Bool) → distance (route_after_verifier ok) < 3
unfolding route_after_verifier distance
verifier_distance ok = ground arith

module _ (py : PyValue) where
  abbrev loops_done : OrchState py → ℕ
  loops_done s = coerce_non_negative_int py s.loops.current_loop 0

  abbrev measure : Node × OrchState py → ℕ
  measure (n, s) = distance n + 8 * (safe_max s.configured_max_loops - loops_done s)

  works_distance :
      (n : Node) (t : OrchState py)
      → n ≢ policy_gate
      → n ≢ finish
      → distance (next_node py n t) < distance n
  unfolding next_node distance
  works_distance verifier t a b = verifier_distance t.verification_ok
  works_distance policy_gate t a b = absurd (a refl)
  works_distance finish t a b = absurd (b refl)
  works_distance _ t a b = omega arith

  gate_measure :
      (s : OrchState py)
      → measure (next_node py policy_gate (run_gate py s), run_gate py s) < measure (policy_gate, s)
  unfolding next_node run_gate gate_decision distance
  gate_measure s =
      let d = gate_decision py s in
      let (_, high, allowed, counted, halted) =
        enforce_loop_budget_bounds py s.loops s.configured_max_loops
          (positive s.plan_max_iterations) in
      let next_distance = route_distance d.halt_reason s.context_reset_requested s.retry_target in
      let read = coerce-of_int py d.current_loop 0 in
      elim (Bool-cases d.allow) [
        | inl e ↦
            let more : d.current_loop ≡ loops_done s + 1 = ground (arith, counted, e) in
            let room : loops_done s < d.max_loops = ltb→lt _ _ (sym allowed ∙ e) in
            omega (arith, next_distance, read, more, room, high)
        | inr e ↦
            let same : d.current_loop ≡ loops_done s = ground (arith, counted, e) in
            let reason : d.halt_reason ≢ no_halt = λ h. cc (halted.0 h, e) in
            let last =
              halted_distance d.halt_reason s.context_reset_requested s.retry_target reason in
            omega (arith, last, read, same)
      ]

  Step-measure : {a b : Node × OrchState py} → Step py a b → measure b < measure a
  Step-measure (gates s) = gate_measure s
  Step-measure (works n s t a b k) =
      let same : safe_max t.configured_max_loops - loops_done t
          ≡ safe_max s.configured_max_loops - loops_done s =
        ap₂
          (λ (i : ℤ) (l : LoopBudgets py). safe_max i - coerce_non_negative_int py l.current_loop 0)
          k.configured k.loops in
      omega (arith, works_distance n t a b, same)

  Run-measure : {a b : Node × OrchState py} {n : ℕ} → Run py a n b → n + measure b ≤ measure a
  Run-measure here = omega arith
  Run-measure (step r st) = omega (arith, Run-measure r, Step-measure st)

  -- A run from ingest, with no loop counted yet, has at most 9 + 8 * m steps, where m is the
  -- configured number of loops, or 1 if that is less than 1. This holds whatever the other nodes
  -- do to the rest of the state, plans with limits of their own included.
  pub Run-length :
      (s : OrchState py) (n : ℕ) (b : Node × OrchState py)
      → coerce_non_negative_int py s.loops.current_loop 0 ≡ 0
      → Run py (ingest, s) n b
      → n ≤ 9 + 8 * safe_max s.configured_max_loops
  unfolding distance
  Run-length s n b z r = omega (arith, Run-measure r, z)
