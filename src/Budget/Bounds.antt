-- ===== src/Budget/Bounds.antt =====
-- What the loop budget decides.
use lula.Prelude.{
  ℕ, zero, suc, ◌+◌, ◌≤◌, ◌≡◌, ◌↔◌, refl, true, Option, none, some, arith, leb, ltb, if◌then◌else◌,
  Bool-cases, inl, inr,
}
use native.Mathlib.Nat.{le_trans}
use lula.Prelude.Int.{ℤ, pos, negsuc}
use lula.Budget.{
  PyValue, no_halt, safe_max, plan_limit, effective_max, coerce_non_negative_int, LoopBudgets,
  enforce_loop_budget, clamp_max, decide,
}

safe_max-pos : (i : ℤ) → 1 ≤ safe_max i
unfolding safe_max
safe_max-pos (pos zero) = omega arith
safe_max-pos (pos (suc n)) = omega arith
safe_max-pos (negsuc n) = omega arith

plan_limit-pos : (i : Option ℤ) (n : ℕ) → plan_limit i ≡ some n → 1 ≤ n
unfolding plan_limit
plan_limit-pos none n h = cc
plan_limit-pos (some (pos zero)) n h = cc
plan_limit-pos (some (pos (suc k))) n h = ground arith
plan_limit-pos (some (negsuc k)) n h = cc

effective_max-bounds :
    (i : ℤ) (p : Option ℤ)
    → (1 ≤ effective_max (safe_max i) (plan_limit p))
      × (effective_max (safe_max i) (plan_limit p) ≤ safe_max i)
unfolding effective_max
effective_max-bounds i p = go (plan_limit p) (plan_limit-pos p)
  where
    go :
        (l : Option ℕ)
        → ((n : ℕ) → l ≡ some n → 1 ≤ n)
        → (1 ≤ effective_max (safe_max i) l) × (effective_max (safe_max i) l ≤ safe_max i)
    go none h = omega (arith, safe_max-pos i)
    go (some n) h = omega (arith, safe_max-pos i, h n refl)

clamp_max-bounds :
    (requested effective : ℕ)
    → 1 ≤ effective
    → (1 ≤ clamp_max requested effective) × (clamp_max requested effective ≤ effective)
unfolding clamp_max
clamp_max-bounds requested effective h = ground arith

decide_lem :
    (limit : Option ℕ) (max_loops done : ℕ)
    → let d = decide limit max_loops done in
      (d.max_loops ≡ max_loops)
      × ((d.allow ≡ ltb done d.max_loops)
          × (d.current_loop ≡ (if d.allow then done + 1 else done))
          × ((d.halt_reason ≡ no_halt) ↔ (d.allow ≡ true)))
unfolding decide
decide_lem limit max_loops done = elim (Bool-cases (leb max_loops done)) [
  | inl e ↦ rw e (refl, (ground arith, refl, (λ h. ground arith, λ h. cc)))
  | inr e ↦ rw e (refl, (ground arith, refl, (λ h. refl, λ h. refl)))
]

module _ (py : PyValue) where
  pub coerce-of_int : (n fallback : ℕ) → coerce_non_negative_int py (py.of_int n) fallback ≡ n
  unfolding coerce_non_negative_int
  coerce-of_int n fallback = rw (py.of_int-is_bool n, py.of_int-stripped n, py.of_int-validate n)

  pub coerce-nothing : (fallback : ℕ) → coerce_non_negative_int py py.nothing fallback ≡ fallback
  unfolding coerce_non_negative_int
  coerce-nothing fallback = rw (py.nothing-is_bool, py.nothing-stripped, py.nothing-validate)

  -- Whatever the budgets, the settings and the plan hold: the loop bound is at least 1 and at most
  -- the configured bound. A pass is allowed exactly if the loops done so far are fewer than that
  -- bound. It then counts one loop more, and otherwise none. A reason to halt is given exactly if
  -- the pass is refused.
  pub enforce_loop_budget_bounds :
      (b : LoopBudgets py) (configured : ℤ) (plan : Option ℤ)
      → let d = enforce_loop_budget py b configured plan in
        let done = coerce_non_negative_int py b.current_loop 0 in
        (1 ≤ d.max_loops)
        × (d.max_loops ≤ safe_max configured)
        × (d.allow ≡ ltb done d.max_loops)
        × (d.current_loop ≡ (if d.allow then done + 1 else done))
        × ((d.halt_reason ≡ no_halt) ↔ (d.allow ≡ true))
  unfolding enforce_loop_budget
  enforce_loop_budget_bounds b configured plan =
      let effective = effective_max (safe_max configured) (plan_limit plan) in
      let (low, high) = effective_max-bounds configured plan in
      let (one, top) =
        clamp_max-bounds (coerce_non_negative_int py b.max_loops effective) effective low in
      let (same, rest) =
        decide_lem (plan_limit plan)
          (clamp_max (coerce_non_negative_int py b.max_loops effective) effective)
          (coerce_non_negative_int py b.current_loop 0) in
      (rw same one, rw same (le_trans top high), rest.0, rest.1, rest.2)
