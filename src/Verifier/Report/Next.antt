-- ===== src/Verifier/Report/Next.antt =====
-- Where the graph goes after a failed verification: the verifier together with the route after the
-- policy gate.
use lula.Prelude.{
  String, ◌≡◌, refl, ◌∙◌, ap, Bool, true, false, some, List, [], ◌∷◌, ◌++◌, arith, leb, keep,
  Bool-cases, inl, inr,
}
use lula.Budget.{no_halt}
use lula.Orchestrator.{RetryTarget, route_after_policy_gate}
use lula.Verifier.{Text, Result, extract_diagnostics, is_architecture_mismatch, patch_applied}
use lula.Verifier.Retry.{discards, classify_retry}
use lula.Verifier.Retry.Table.{AllOk, target_of, blocked, classify_retry-target}
use lula.Verifier.Report.{
  Check, Report, VerifierState, build_checks, audit_checks, checks_of, acceptance_of, report_on,
  validated, out_of, raw_report, verifier, failed_report, target_or_none,
}
use lula.Verifier.Report.Verdict.{node_of, route-node_of}

module _ (py : Text) (valid : Report → Bool) where
  build_checks-failed :
      (before : List Result) (r : Result) (after : List Result)
      → r.ok ≡ false
      → (c : Check) × (cs : List Check) × (build_checks py valid (before ++ r ∷ after) ≡ c ∷ cs)
  unfolding build_checks keep
  build_checks-failed [] r after f = rw f (_, _, refl)
  build_checks-failed (b ∷ before) r after f = elim (Bool-cases b.ok) [
    | inl e ↦ rw e (build_checks-failed before r after f)
    | inr e ↦ rw e (_, _, refl)
  ]

  validated-valid : (x : Report × String) → valid x.0 ≡ true → validated py valid x ≡ x
  unfolding validated
  validated-valid (r, reason) v = rw v refl

  failed : VerifierState → Check → List Check → Report × String
  failed s c cs =
      let (recovery, reason) = classify_retry py s.tool_results s.current_loop in
      (failed_report (c ∷ cs) (acceptance_of py valid s) recovery c.summary, reason)

  verifier-failed :
      (s : VerifierState) (c : Check) (cs : List Check)
      → checks_of py valid s ≡ c ∷ cs
      → valid (raw_report py valid s).0 ≡ true
      → verifier py valid s ≡ out_of py valid s (failed s c cs)
  unfolding verifier raw_report report_on failed
  verifier-failed s c cs e v =
      let raw : raw_report py valid s ≡ failed s c cs =
        ap (λ x. report_on py valid s x (acceptance_of py valid s)) e in
      ap (out_of py valid s) (validated-valid (raw_report py valid s) v ∙ raw)

  -- What a failing check leaves, where the report satisfies the schema.
  out-failed :
      (s : VerifierState) (c : Check) (cs : List Check)
      → s.context_reset_requested ≡ false
      → ((out_of py valid s (failed s c cs)).retry_target
          ≡ some (classify_retry py s.tool_results s.current_loop).0.retry_target)
        × ((out_of py valid s (failed s c cs)).context_reset_requested
            ≡ discards (classify_retry py s.tool_results s.current_loop).0.plan_action)
  unfolding out_of failed failed_report
  out-failed s c cs q = (refl, ground (arith, q))

  failed-checks :
      (s : VerifierState) (before : List Result) (r : Result) (after : List Result)
      → s.tool_results ≡ before ++ r ∷ after
      → r.ok ≡ false
      → (c : Check) × (cs : List Check) × (checks_of py valid s ≡ c ∷ cs)
  unfolding checks_of
  failed-checks s before r after e f =
      let (c, cs, b) = build_checks-failed before r after f in
      (c, _, ap (λ x. x ++ audit_checks py valid s.blocking) (ap (build_checks py valid) e ∙ b))

  classified :
      (s : VerifierState) (before : List Result) (r : Result) (after : List Result)
      → s.tool_results ≡ before ++ r ∷ after
      → r.ok ≡ false
      → AllOk after
      → ((classify_retry py s.tool_results s.current_loop).0.retry_target
          ≡ target_of
              (is_architecture_mismatch py r (extract_diagnostics r))
              (blocked py r)
              (patch_applied py s.tool_results)
              (leb 2 s.current_loop))
        × (discards (classify_retry py s.tool_results s.current_loop).0.plan_action
            ≡ is_architecture_mismatch py r (extract_diagnostics r))
  classified s before r after e f a =
      rw e (classify_retry-target py before r after s.current_loop f a)

  -- After a failing tool result, with a report that satisfies the schema and no earlier request to reset
  -- the context, a gate that does not halt the run goes to the node that the decision table gives for the
  -- last failing result, the results and the loop.
  pub verifier-next :
      (s : VerifierState) (before : List Result) (r : Result) (after : List Result)
      → s.tool_results ≡ before ++ r ∷ after
      → r.ok ≡ false
      → AllOk after
      → valid (raw_report py valid s).0 ≡ true
      → s.context_reset_requested ≡ false
      → route_after_policy_gate no_halt
          (verifier py valid s).context_reset_requested
          (target_or_none (verifier py valid s).retry_target)
        ≡ node_of (
            target_of
              (is_architecture_mismatch py r (extract_diagnostics r))
              (blocked py r)
              (patch_applied py s.tool_results)
              (leb 2 s.current_loop))
  unfolding target_or_none target_of
  verifier-next s before r after e f a v q =
      let (c, cs, h) = failed-checks s before r after e f in
      let (target, reset) = out-failed s c cs q in
      let mismatch = is_architecture_mismatch py r (extract_diagnostics r) in
      let found : RetryTarget =
        target_of mismatch (blocked py r) (patch_applied py s.tool_results)
          (leb 2 s.current_loop) in
      let (table, discarded) = classified s before r after e f a in
      ap
        (λ o.
          route_after_policy_gate no_halt o.context_reset_requested (target_or_none o.retry_target))
        (verifier-failed s c cs h v)
      ∙ ap
          (λ b.
            route_after_policy_gate no_halt b
              (target_or_none (out_of py valid s (failed s c cs)).retry_target))
          (reset ∙ discarded)
      ∙ ap (λ t. route_after_policy_gate no_halt mismatch (target_or_none t)) target
      ∙ ap (λ t. route_after_policy_gate no_halt mismatch t) table
      ∙ route-node_of mismatch found (λ m.
        ap
          (λ b. target_of b (blocked py r) (patch_applied py s.tool_results) (leb 2 s.current_loop))
          m)
