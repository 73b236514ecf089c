-- ===== src/Budget/Examples.antt =====
-- The loop budget over values that are an integer or None.
use lula.Prelude.{ℕ, ◌+◌, ◌≤◌, ◌≡◌, ◌↔◌, refl, true, false, Option, none, some, ltb, if◌then◌else◌}
use lula.Prelude.Int.{pos}
use lula.Budget.{
  PyValue, LoopBudgets, LoopBudgetDecision, no_halt, safe_max, coerce_non_negative_int,
  enforce_loop_budget,
}
use lula.Budget.Bounds.{enforce_loop_budget_bounds}

abbrev pub int_or_none : PyValue
int_or_none = record {
  Any = Option ℕ;
  nothing = none;
  is_bool = λ v. false;
  stripped = λ v. v;
  validate_python = λ v. v;
  of_int = λ n. some n;
  of_int-is_bool = λ n. refl;
  of_int-stripped = λ n. refl;
  of_int-validate = λ n. refl;
  nothing-is_bool = refl;
  nothing-stripped = refl;
  nothing-validate = refl;
}

abbrev second_loop : LoopBudgets int_or_none
second_loop = record { max_loops = some 3; current_loop = some 1 }

abbrev decision : LoopBudgetDecision
decision = enforce_loop_budget int_or_none second_loop (pos 5) (some (pos 2))

enforce_loop_budget_bounds_example :
    (1 ≤ decision.max_loops)
    × (decision.max_loops ≤ safe_max (pos 5))
    × (decision.allow ≡ ltb (coerce_non_negative_int int_or_none (some 1) 0) decision.max_loops)
    × (decision.current_loop ≡ (
        if decision.allow
        then coerce_non_negative_int int_or_none (some 1) 0 + 1
        else coerce_non_negative_int int_or_none (some 1) 0))
    × ((decision.halt_reason ≡ no_halt) ↔ (decision.allow ≡ true))
enforce_loop_budget_bounds_example =
    enforce_loop_budget_bounds int_or_none second_loop (pos 5) (some (pos 2))
