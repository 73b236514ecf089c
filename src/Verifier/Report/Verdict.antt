-- ===== src/Verifier/Report/Verdict.antt =====
-- When the verifier passes, and where the graph goes when it does not.
use lula.Prelude.{
  ℕ, ◌≡◌, ◌↔◌, refl, ◌∙◌, sym, ap, String, Bool, true, false, ◌&&◌, List, [], ◌∷◌, ◌++◌, arith, ltb,
  keep, all, Bool-cases, inl, inr,
}
use lula.Budget.{no_halt}
use lula.Orchestrator.{
  Node, context_builder, router, planner, coder, RetryTarget, to_router, to_planner, to_coder,
  to_context_builder, elsewhere, route_after_policy_gate,
}
use lula.Verifier.{Text, Result}
use lula.Verifier.Retry.Table.{AllOk}
use lula.Verifier.Acceptance.{AcceptanceCheck}
use lula.Verifier.Report.{
  Check, Report, VerifierState, build_checks, audit_checks, checks_of, acceptance_of, report_on,
  validated, out_of, raw_report, verifier, failed_report, passed_report, schema_failed,
}

-- No event of the auditor counts a blocking violation.
abbrev pub AllZero : List ℕ → Type 0
AllZero [] = Unit {0}
AllZero (n ∷ ns) = (n ≡ 0) × AllZero ns

-- Whether there is no check.
abbrev is_empty : List Check → Bool
is_empty [] = true
is_empty (c ∷ cs) = false

is_empty-append : (cs ds : List Check) → is_empty (cs ++ ds) ≡ is_empty cs && is_empty ds
is_empty-append [] ds = refl
is_empty-append (c ∷ cs) ds = refl

module _ (py : Text) (valid : Report → Bool) where
  is_empty-build_checks :
      (rs : List Result) → (is_empty (build_checks py valid rs) ≡ true) ↔ AllOk rs
  unfolding build_checks keep
  is_empty-build_checks [] = (λ _. tt, λ _. refl)
  is_empty-build_checks (r ∷ rs) = elim (Bool-cases r.ok) [
    | inl e ↦
        rw e (λ h. (refl, (is_empty-build_checks rs).0 h), λ h. (is_empty-build_checks rs).1 h.1)
    | inr e ↦ rw e (λ h. ground (arith, h), λ h. ground (arith, h.0))
  ]

  is_empty-audit_checks : (ns : List ℕ) → (is_empty (audit_checks py valid ns) ≡ true) ↔ AllZero ns
  unfolding audit_checks keep
  is_empty-audit_checks [] = (λ _. tt, λ _. refl)
  is_empty-audit_checks (n ∷ ns) = elim (Bool-cases (ltb 0 n)) [
    | inl e ↦ rw e (λ h. ground (arith, h), λ h. ground (arith, h.0, e))
    | inr e ↦ rw e (
      λ h. (ground (arith, e), (is_empty-audit_checks ns).0 h),
      λ h. (is_empty-audit_checks ns).1 h.1,
    )
  ]

  out-report : (s : VerifierState) (x : Report × String) → (out_of py valid s x).report ≡ x.0
  unfolding out_of
  out-report s (r, reason) = refl

  validated-ok : (x : Report × String) → (validated py valid x).0.ok ≡ valid x.0 && x.0.ok
  unfolding validated schema_failed
  validated-ok (r, reason) = elim (Bool-cases (valid r)) [ inl e ↦ rw e refl | inr e ↦ rw e refl ]

  report_on-ok :
      (s : VerifierState) (cs : List Check) (acc : List AcceptanceCheck)
      → (report_on py valid s cs acc).0.ok ≡ is_empty cs && all (λ a. a.ok) acc
  unfolding report_on failed_report passed_report
  report_on-ok s [] acc = elim (Bool-cases (all (λ a. a.ok) acc)) [
    | inl e ↦ rw e refl
    | inr e ↦ rw e refl
  ]
  report_on-ok s (c ∷ cs) acc = refl

  verifier-Bool :
      (s : VerifierState)
      → (verifier py valid s).report.ok
        ≡ valid (raw_report py valid s).0
          && ((is_empty (build_checks py valid s.tool_results)
                && is_empty (audit_checks py valid s.blocking))
              && all (λ a. a.ok) (acceptance_of py valid s))
  unfolding verifier raw_report checks_of
  verifier-Bool s =
      ap (λ r. r.ok) (out-report s (validated py valid (raw_report py valid s)))
      ∙ validated-ok (raw_report py valid s)
      ∙ ap (λ b. valid (raw_report py valid s).0 && b)
          (report_on-ok s (checks_of py valid s) (acceptance_of py valid s)
            ∙ ap (λ b. b && all (λ a. a.ok) (acceptance_of py valid s))
                (is_empty-append (build_checks py valid s.tool_results)
                  (audit_checks py valid s.blocking)))

  -- The verifier passes exactly when every tool result is ok, no event of the auditor counts a blocking
  -- violation, every acceptance check is ok, and the report satisfies the schema.
  pub verifier-ok_iff :
      (s : VerifierState)
      → ((verifier py valid s).report.ok ≡ true) ↔ (
          AllOk s.tool_results
          × AllZero s.blocking
          × (all (λ a. a.ok) (acceptance_of py valid s) ≡ true)
          × (valid (raw_report py valid s).0 ≡ true))
  verifier-ok_iff s =
      let built = is_empty-build_checks s.tool_results in
      let audited = is_empty-audit_checks s.blocking in
      let e = verifier-Bool s in
      (
        λ h. (
          built.0 (ground (arith, e, h)),
          audited.0 (ground (arith, e, h)),
          ground (arith, e, h),
          ground (arith, e, h),
        ),
        λ h. ground (arith, e, built.1 h.0, audited.1 h.1, h.2, h.3),
      )

-- The node for a target.
pub node_of : RetryTarget → Node
node_of to_router = router
node_of to_planner = planner
node_of to_coder = coder
node_of to_context_builder = context_builder
node_of elsewhere = context_builder

pub route-node_of :
    (b : Bool) (t : RetryTarget)
    → (b ≡ true → t ≡ to_context_builder)
    → route_after_policy_gate no_halt b t ≡ node_of t
unfolding route_after_policy_gate node_of
route-node_of true t h = ap node_of (sym (h refl))
route-node_of false to_router h = refl
route-node_of false to_planner h = refl
route-node_of false to_coder h = refl
route-node_of false to_context_builder h = refl
route-node_of false elsewhere h = refl
