-- ===== src/Budget.antt =====
-- py/src/lg_orch/policy.py: the loop budget. What pydantic reads out of a loosely typed value is not
-- code of the repository: `PyValue` holds what the code asks of it.
pub mod Bounds
pub mod Examples
use lula.Prelude.{
  ℕ, zero, suc, ◌+◌, min, ◌≡◌, Bool, true, false, Option, none, some, leb, ltb, ◌==◌, if◌then◌else◌,
}
use lula.Prelude.Int.{ℤ, pos, negsuc}

pub record PyValue : Type 1 where
  pub Any : Type 0
  -- `None`, which `budgets.get(key)` gives for a missing key.
  pub nothing : Any
  pub is_bool : Any → Bool
  -- `value.strip()` for a text, and the value itself otherwise.
  pub stripped : Any → Any
  -- TypeAdapter(Annotated[int, Field(ge=0)]).validate_python; `none` is a validation error.
  pub validate_python : Any → Option ℕ
  -- A Python integer that is not negative.
  pub of_int : ℕ → Any
  -- Documented: a non-negative integer is no bool and validates to itself, and None does not
  -- validate to an integer.
  pub of_int-is_bool : (n : ℕ) → is_bool (of_int n) ≡ false
  pub of_int-stripped : (n : ℕ) → stripped (of_int n) ≡ of_int n
  pub of_int-validate : (n : ℕ) → validate_python (of_int n) ≡ some n
  pub nothing-is_bool : is_bool nothing ≡ false
  pub nothing-stripped : stripped nothing ≡ nothing
  pub nothing-validate : validate_python nothing ≡ none

pub data HaltReason : Type 0 where
  no_halt max_loops_exhausted plan_max_iterations_exhausted : HaltReason

pub record LoopBudgetDecision : Type 0 where
  pub allow : Bool
  pub current_loop : ℕ
  pub max_loops : ℕ
  pub halt_reason : HaltReason

-- configured if configured >= 1 else 1
pub safe_max : ℤ → ℕ
safe_max (pos zero) = 1
safe_max (pos (suc n)) = suc n
safe_max (negsuc n) = 1

-- The plan's limit, if it is at least 1.
pub plan_limit : Option ℤ → Option ℕ
plan_limit none = none
plan_limit (some (pos zero)) = none
plan_limit (some (pos (suc n))) = some (suc n)
plan_limit (some (negsuc n)) = none

pub effective_max : ℕ → Option ℕ → ℕ
effective_max safe none = safe
effective_max safe (some limit) = min safe limit

is_limit : Option ℕ → ℕ → Bool
is_limit none max_loops = false
is_limit (some limit) max_loops = max_loops == limit

or_fallback : Option ℕ → ℕ → ℕ
or_fallback none fallback = fallback
or_fallback (some n) fallback = n

clamp_max : ℕ → ℕ → ℕ
clamp_max requested effective = min (if ltb requested 1 then effective else requested) effective

decide : Option ℕ → ℕ → ℕ → LoopBudgetDecision
decide limit max_loops current_loop =
    if leb max_loops current_loop
    then record {
      allow = false;
      current_loop = current_loop;
      max_loops = max_loops;
      halt_reason =
          if is_limit limit max_loops then plan_max_iterations_exhausted else max_loops_exhausted;
    }
    else record {
      allow = true;
      current_loop = current_loop + 1;
      max_loops = max_loops;
      halt_reason = no_halt;
    }

module _ (py : PyValue) where
  open py use {Any, is_bool, stripped, validate_python}

  pub coerce_non_negative_int : Any → ℕ → ℕ
  unfolding or_fallback
  coerce_non_negative_int value fallback =
      if is_bool value then fallback else or_fallback (validate_python (stripped value)) fallback

  -- budgets.get("max_loops") and budgets.get("current_loop")
  pub record LoopBudgets : Type 0 where
    pub max_loops : Any
    pub current_loop : Any

  pub enforce_loop_budget : LoopBudgets → ℤ → Option ℤ → LoopBudgetDecision
  unfolding clamp_max decide
  enforce_loop_budget budgets configured_max_loops plan_max_iterations =
      let effective =
        effective_max (safe_max configured_max_loops) (plan_limit plan_max_iterations) in
      decide (plan_limit plan_max_iterations)
        (clamp_max (coerce_non_negative_int budgets.max_loops effective) effective)
        (coerce_non_negative_int budgets.current_loop 0)
