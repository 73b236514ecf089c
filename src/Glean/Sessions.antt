-- ===== src/Glean/Sessions.antt =====
-- What a session of checks records, returns and sums up.
use mathlib.Core.List.{append-nil, append_assoc}
use lula.Prelude.{
  String, ◌≡◌, ap, Bool, false, ◌&&◌, ◌||◌, List, [], ◌∷◌, ◌++◌, arith, keep, any, map, Bool-cases,
  inl, inr, not, any-append, any-keep, length-keep-zero,
}
use lula.Glean.{
  Guideline, GuidelineViolation, GleanAuditor, Evidence, new_auditor, add_guideline, is_block,
  is_pre, is_post, violation, record_evidence, summary, pre_loop, check_pre_execution, post_loop,
  check_post_execution,
}

module _ (search : String → String → Bool) (tool subject : String) where
  -- The violations of one check, in the order of the guidelines.
  abbrev pub found_by : (Guideline → Bool) → List Guideline → List GuidelineViolation
  found_by at gs = map (violation tool subject) (keep (λ g. at g && search g.pattern subject) gs)

  pre_loop_lem :
      (gs : List Guideline) (recorded blocking : List GuidelineViolation)
      → pre_loop search tool subject gs recorded blocking
        ≡ (recorded ++ found_by is_pre gs, blocking ++ keep is_block (found_by is_pre gs))
  unfolding pre_loop keep
  pre_loop_lem [] recorded blocking = simp append-nil
  pre_loop_lem (g ∷ gs) recorded blocking =
      let v = violation tool subject g in
      elim (Bool-cases (is_pre g && search g.pattern subject)) [
        | inr e ↦ rw e (pre_loop_lem gs recorded blocking)
        | inl e ↦ elim (Bool-cases (is_block v)) [
          | inl b ↦
              rw (e, b)
                (simp (pre_loop_lem gs (recorded ++ v ∷ []) (blocking ++ v ∷ []), append_assoc))
          | inr b ↦ rw (e, b) (simp (pre_loop_lem gs (recorded ++ v ∷ []) blocking, append_assoc))
        ]
      ]

  post_loop_lem :
      (gs : List Guideline) (recorded found : List GuidelineViolation)
      → post_loop search tool subject gs recorded found
        ≡ (recorded ++ found_by is_post gs, found ++ found_by is_post gs)
  unfolding post_loop keep
  post_loop_lem [] recorded found = simp append-nil
  post_loop_lem (g ∷ gs) recorded found =
      let v = violation tool subject g in
      elim (Bool-cases (is_post g && search g.pattern subject)) [
        | inr e ↦ rw e (post_loop_lem gs recorded found)
        | inl e ↦
            rw e (simp (post_loop_lem gs (recorded ++ v ∷ []) (found ++ v ∷ []), append_assoc))
      ]

  -- A check before execution records every violation that it finds, in the order of the guidelines,
  -- behind those recorded before, and returns the blocking ones among the new ones. One after
  -- execution records and returns all that it finds.
  pub check-found_by :
      (a : GleanAuditor)
      → (check_pre_execution search tool subject a ≡ (
        record a { violations = a.violations ++ found_by is_pre a.guidelines },
        keep is_block (found_by is_pre a.guidelines),
      ))
        × (check_post_execution search tool subject a ≡ (
          record a { violations = a.violations ++ found_by is_post a.guidelines },
          found_by is_post a.guidelines,
        ))
  unfolding check_pre_execution check_post_execution
  check-found_by a = (
    rw (pre_loop_lem a.guidelines a.violations []),
    rw (post_loop_lem a.guidelines a.violations []),
  )

-- What a session does with the auditor.
pub data Call : Type 0 where
  add : Guideline → Call
  before : (tool subject : String) → Call
  after : (tool subject : String) → Call
  note : Evidence → Call

module _ (search : String → String → Bool) where
  pub run_call : Call → GleanAuditor → GleanAuditor
  run_call (add g) a = add_guideline g a
  run_call (before tool subject) a = (check_pre_execution search tool subject a).0
  run_call (after tool subject) a = (check_post_execution search tool subject a).0
  run_call (note e) a = record_evidence e a

  pub run_calls : List Call → GleanAuditor → GleanAuditor
  run_calls [] a = a
  run_calls (c ∷ cs) a = run_calls cs (run_call c a)

  -- Did the call return a blocking violation to its caller?
  pub blocked_by : Call → GleanAuditor → Bool
  blocked_by (add g) a = false
  blocked_by (before tool subject) a = any is_block (check_pre_execution search tool subject a).1
  blocked_by (after tool subject) a = any is_block (check_post_execution search tool subject a).1
  blocked_by (note e) a = false

  pub any_blocked : List Call → GleanAuditor → Bool
  any_blocked [] a = false
  any_blocked (c ∷ cs) a = blocked_by c a || any_blocked cs (run_call c a)

compliant_lem : (a : GleanAuditor) → (summary a).compliant ≡ not (any is_block a.violations)
unfolding summary
compliant_lem a = length-keep-zero is_block a.violations

abbrev blocks_in : GleanAuditor × List GuidelineViolation → Bool
blocks_in r = any is_block r.0.violations

abbrev blocks_out : GleanAuditor × List GuidelineViolation → Bool
blocks_out r = any is_block r.1

module _ (search : String → String → Bool) where
  run_call-blocks :
      (c : Call) (a : GleanAuditor)
      → any is_block (run_call search c a).violations
        ≡ any is_block a.violations || blocked_by search c a
  unfolding run_call blocked_by add_guideline record_evidence any
  run_call-blocks (add g) a = ground arith
  run_call-blocks (before tool subject) a =
      let found = found_by search tool subject is_pre a.guidelines in
      ground (
        arith,
        ap blocks_in (check-found_by search tool subject a).0,
        ap blocks_out (check-found_by search tool subject a).0,
        any-append is_block a.violations found,
        any-keep is_block found,
      )
  run_call-blocks (after tool subject) a =
      let found = found_by search tool subject is_post a.guidelines in
      ground (
        arith,
        ap blocks_in (check-found_by search tool subject a).1,
        ap blocks_out (check-found_by search tool subject a).1,
        any-append is_block a.violations found,
      )
  run_call-blocks (note e) a = ground arith

  run_calls-blocks :
      (cs : List Call) (a : GleanAuditor)
      → any is_block (run_calls search cs a).violations
        ≡ any is_block a.violations || any_blocked search cs a
  unfolding run_calls any_blocked
  run_calls-blocks [] a = ground arith
  run_calls-blocks (c ∷ cs) a =
      ground (arith, run_call-blocks c a, run_calls-blocks cs (run_call search c a))

  -- The summary of a session that began with a new auditor says "compliant" exactly if no check of
  -- the session returned a blocking violation to its caller: none is lost, and none is made up.
  pub compliant_iff :
      (cs : List Call)
      → (summary (run_calls search cs new_auditor)).compliant
        ≡ not (any_blocked search cs new_auditor)
  unfolding new_auditor any
  compliant_iff cs =
      ground
        (arith, compliant_lem (run_calls search cs new_auditor), run_calls-blocks cs new_auditor)
