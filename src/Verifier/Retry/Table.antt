-- ===== src/Verifier/Retry/Table.antt =====
-- The decision table of _classify_retry.
use lula.Prelude.{
  ℕ, ◌≡◌, refl, Bool, true, false, ◌||◌, none, some, List, [], ◌∷◌, ◌++◌, arith, str_eq, leb,
}
use lula.Orchestrator.{RetryTarget, to_router, to_planner, to_coder, to_context_builder}
use lula.Verifier.{
  Text, Result, extract_diagnostics, is_architecture_mismatch, is_test_failure_post_change,
  patch_applied,
}
use lula.Verifier.Retry.{
  last_failed, error_tag, exceeds_budget, classify_failed, classify_last, classify_retry, within,
  discards,
}

-- Results that all succeeded.
abbrev pub AllOk : List Result → Type 0
AllOk [] = Unit {0}
AllOk (r ∷ rs) = (r.ok ≡ true) × AllOk rs

last_failed-none : (rs : List Result) → AllOk rs → last_failed rs ≡ none
unfolding last_failed
last_failed-none [] a = refl
last_failed-none (r ∷ rs) (o, a) = rw (last_failed-none rs a, o) refl

last_failed-last :
    (before : List Result) (r : Result) (after : List Result)
    → r.ok ≡ false
    → AllOk after
    → last_failed (before ++ r ∷ after) ≡ some r
unfolding last_failed
last_failed-last [] r after f a = rw (last_failed-none after a, f) refl
last_failed-last (b ∷ before) r after f a = rw (last_failed-last before r after f a) refl

-- The target, by what the last failure is, whether a patch was applied, and whether the loop is at
-- least the second.
unfoldable pub target_of : (mismatch blocked patched late : Bool) → RetryTarget
target_of true blocked patched late = to_context_builder
target_of false true patched late = to_planner
target_of false false true late = to_coder
target_of false false false true = to_router
target_of false false false false = to_planner

module _ (py : Text) where
  pub blocked : Result → Bool
  blocked r = str_eq (error_tag py r) "formal_verification_failed" || exceeds_budget py r

  patched-of-test :
      (r : Result) (rs : List Result)
      → is_test_failure_post_change py r (extract_diagnostics r) rs ≡ true
      → patch_applied py rs ≡ true
  unfolding is_test_failure_post_change
  patched-of-test r rs e = ground arith

  classify_failed-target :
      (results : List Result) (current_loop : ℕ) (r : Result)
      → (classify_failed py results current_loop r).0.retry_target
        ≡ target_of
            (is_architecture_mismatch py r (extract_diagnostics r))
            (blocked r)
            (patch_applied py results)
            (leb 2 current_loop)
  unfolding classify_failed target_of blocked within
  classify_failed-target results current_loop r = ground (arith, patched-of-test r results)

  classify_failed-discards :
      (results : List Result) (current_loop : ℕ) (r : Result)
      → discards (classify_failed py results current_loop r).0.plan_action
        ≡ is_architecture_mismatch py r (extract_diagnostics r)
  unfolding classify_failed within
  classify_failed-discards results current_loop r = ground arith

  -- What is retried is decided by the last result that is not ok, whatever stands before it: a mismatch
  -- with the repository goes back to the context builder, and only then is the plan discarded; a
  -- failed formal verification and an exceeded budget go to the planner; of the others, those after an
  -- applied patch go to the coder, those from the second loop on to the router, the rest to the planner.
  pub classify_retry-target :
      (before : List Result) (r : Result) (after : List Result) (current_loop : ℕ)
      → r.ok ≡ false
      → AllOk after
      → ((classify_retry py (before ++ r ∷ after) current_loop).0.retry_target
          ≡ target_of
              (is_architecture_mismatch py r (extract_diagnostics r))
              (blocked r)
              (patch_applied py (before ++ r ∷ after))
              (leb 2 current_loop))
        × (discards (classify_retry py (before ++ r ∷ after) current_loop).0.plan_action
            ≡ is_architecture_mismatch py r (extract_diagnostics r))
  unfolding classify_retry classify_last
  classify_retry-target before r after current_loop f a =
      let results = before ++ r ∷ after in
      rw (last_failed-last before r after f a) (
        classify_failed-target results current_loop r,
        classify_failed-discards results current_loop r,
      )
