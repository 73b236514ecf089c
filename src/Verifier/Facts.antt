-- ===== src/Verifier/Facts.antt =====
-- The facts that the verifier keeps of a failure: _updated_recovery_facts of
-- py/src/lg_orch/nodes/verifier.py, for a report that has a recovery packet. A fact is its entries
-- that are read; salience and loop are integers.
pub mod Kept
use lula.Prelude.{
  ℕ, String, Bool, true, false, not, List, [], ◌∷◌, ◌++◌, str_eq, if◌then◌else◌, keep, take,
}
use lula.Prelude.Int.{ℤ, pos}
use lula.Prelude.Texts.{strip}
use lula.Prelude.Ranked.{insert_desc, sort_desc}
use lula.Prelude.Ranked.Keys.{le_int, le_pair}
use lula.Orchestrator.{RetryTarget, to_router, to_planner, to_coder, to_context_builder, elsewhere}
use lula.Verifier.Retry.{PlanAction, keep as keep_plan, amend, discard_reset}

pub record Fact : Type 0 where
  pub failure_fingerprint : String
  pub summary : String
  pub is_recovery : Bool
  pub loop : ℤ
  pub salience : ℤ

abbrev pub fact_key : Fact → ℤ × ℤ
fact_key f = (f.salience, f.loop)

abbrev pub fact_le : Fact → Fact → Bool
fact_le f g = le_pair le_int le_int (fact_key f) (fact_key g)

target_salience : RetryTarget → ℕ
target_salience to_router = 8
target_salience to_planner = 6
target_salience to_coder = 6
target_salience to_context_builder = 6
target_salience elsewhere = 6

pub salience_of : PlanAction → RetryTarget → ℕ
unfolding target_salience
salience_of discard_reset target = 10
salience_of keep_plan target = target_salience target
salience_of amend target = target_salience target

-- What the function reads of a report.
pub record Failure : Type 0 where
  pub failure_fingerprint : String
  pub loop_summary : String
  pub plan_action : PlanAction
  pub retry_target : RetryTarget

pub next_fact : Failure → ℕ → Fact
next_fact r current_loop = record {
  failure_fingerprint = strip r.failure_fingerprint;
  summary = strip r.loop_summary;
  is_recovery = true;
  loop = pos current_loop;
  salience = pos (salience_of r.plan_action r.retry_target);
}

-- str(entry["failure_fingerprint"]).strip() == fingerprint
pub has_fingerprint : String → Fact → Bool
has_fingerprint fingerprint f = str_eq (strip f.failure_fingerprint) fingerprint

-- The facts that are ranked: those of other failures, and the new one.
pub candidates : List Fact → Failure → ℕ → List Fact
candidates facts r current_loop =
    let next = next_fact r current_loop in
    keep (λ f. not (has_fingerprint (strip next.failure_fingerprint) f)) facts ++ next ∷ []

pub updated_recovery_facts : List Fact → Failure → ℕ → List Fact
updated_recovery_facts facts r current_loop =
    take 12 (sort_desc fact_le (candidates facts r current_loop))

-- What updating concrete facts computes with.
unfoldable pub facts_parts : Unit {0}
unfolding insert_desc sort_desc keep target_salience salience_of next_fact has_fingerprint
    candidates updated_recovery_facts
facts_parts = tt
