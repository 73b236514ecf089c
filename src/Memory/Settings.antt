-- ===== src/Memory/Settings.antt =====
-- _as_int and the settings that are read with it (py/src/lg_orch/memory.py): the history policy and
-- the budgets of a context.
use lula.Prelude.{ℕ, ◌≤◌, Bool, Option, none, some, arith, min, max}
use lula.Prelude.Int.{ℤ, non_negative}

-- A loosely typed setting: what `int` makes of a text is an argument, `none` where it raises or the
-- text is blank; a float stands for its integer part.
pub data Setting : Type 0 where
  other : Setting
  boolean : Bool → Setting
  integer : ℤ → Setting
  floating : ℤ → Setting
  text : Option ℤ → Setting

clamp : ℕ → ℕ → ℤ → ℕ
clamp minimum maximum parsed = min (max (non_negative parsed) minimum) maximum

parsed_or : ℕ → ℕ → ℕ → Option ℤ → ℕ
parsed_or default minimum maximum none = default
parsed_or default minimum maximum (some n) = clamp minimum maximum n

-- For a minimum that is not negative.
pub as_int : ℕ → ℕ → ℕ → Setting → ℕ
unfolding parsed_or clamp
as_int default minimum maximum other = default
as_int default minimum maximum (boolean b) = default
as_int default minimum maximum (integer n) = clamp minimum maximum n
as_int default minimum maximum (floating n) = clamp minimum maximum n
as_int default minimum maximum (text parsed) = parsed_or default minimum maximum parsed

pub record HistoryPolicy : Type 0 where
  pub schema_version : ℕ
  pub retain_recent_tool_results : ℕ
  pub read_file_prune_threshold_chars : ℕ

pub retain_setting : Setting → ℕ
retain_setting raw = as_int 40 5 500 raw

pub threshold_setting : Setting → ℕ
threshold_setting raw = as_int 4000 200 200000 raw

-- The policy of the two raw entries; a missing one is `other`.
pub normalize_history_policy : Setting → Setting → HistoryPolicy
normalize_history_policy retain threshold = record {
  schema_version = 1;
  retain_recent_tool_results = retain_setting retain;
  read_file_prune_threshold_chars = threshold_setting threshold;
}

pub record ContextBudget : Type 0 where
  pub stable_prefix_tokens : ℕ
  pub working_set_tokens : ℕ
  pub tool_result_summary_chars : ℕ

pub context_budget_settings : Setting → Setting → Setting → ContextBudget
context_budget_settings stable working summary = record {
  stable_prefix_tokens = as_int 1600 200 100000 stable;
  working_set_tokens = as_int 1600 200 100000 working;
  tool_result_summary_chars = as_int 480 80 20000 summary;
}

pub as_int-bounds :
    (default minimum maximum : ℕ) (raw : Setting)
    → minimum ≤ default
    → default ≤ maximum
    → (minimum ≤ as_int default minimum maximum raw)
      × (as_int default minimum maximum raw ≤ maximum)
unfolding as_int parsed_or clamp
as_int-bounds default minimum maximum raw h k = ground arith

-- Both token budgets are at least 200.
pub context_budget_settings-bounds :
    (stable working summary : Setting)
    → let b = context_budget_settings stable working summary in
      (200 ≤ b.stable_prefix_tokens) × (200 ≤ b.working_set_tokens)
unfolding context_budget_settings
context_budget_settings-bounds stable working summary = (
  (as_int-bounds 1600 200 100000 stable (omega arith) (omega arith)).0,
  (as_int-bounds 1600 200 100000 working (omega arith) (omega arith)).0,
)
