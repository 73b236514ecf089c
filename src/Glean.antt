-- ===== src/Glean.antt =====
-- py/src/lg_orch/glean.py: the auditor of tool calls. The regular expressions are matched by a
-- library: `search pattern subject` is the section's parameter. The subject is the text of the
-- arguments or of the result, which the caller hands in; the log lines are left out.
pub mod Sessions
mod Examples
use lula.Memory.Fit.{take_chars}
use lula.Prelude.{
  ℕ, String, Bool, true, false, ◌&&◌, List, [], ◌∷◌, ◌++◌, ◌==◌, if◌then◌else◌, length, keep,
}

pub data Severity : Type 0 where
  warning error block : Severity

-- `check` of a guideline; any other text than "pre" and "post" is never checked.
pub data CheckPoint : Type 0 where
  pre post unchecked : CheckPoint

pub record Guideline : Type 0 where
  pub id : String
  pub check : CheckPoint
  pub pattern : String
  pub severity : Severity

pub record GuidelineViolation : Type 0 where
  pub guideline_id : String
  pub tool_name : String
  -- The pattern and the first 200 characters of the subject, of which `detail` is made.
  pub pattern : String
  pub subject : String
  pub severity : Severity

pub record Evidence : Type 0 where
  pub tool_name : String
  pub action : String
  pub detail : String

pub record GleanAuditor : Type 0 where
  pub guidelines : List Guideline
  pub violations : List GuidelineViolation
  pub evidence : List Evidence

unfoldable pub new_auditor : GleanAuditor
new_auditor = record { guidelines = []; violations = []; evidence = [] }

pub add_guideline : Guideline → GleanAuditor → GleanAuditor
add_guideline g a = record a { guidelines = a.guidelines ++ g ∷ [] }

abbrev pub is_block : GuidelineViolation → Bool
is_block v = elim v.severity [ warning ↦ false | error ↦ false | block ↦ true ]

abbrev pub is_pre : Guideline → Bool
is_pre g = elim g.check [ pre ↦ true | post ↦ false | unchecked ↦ false ]

abbrev pub is_post : Guideline → Bool
is_post g = elim g.check [ pre ↦ false | post ↦ true | unchecked ↦ false ]

pub violation : String → String → Guideline → GuidelineViolation
violation tool_name subject g = record {
  guideline_id = g.id;
  tool_name = tool_name;
  pattern = g.pattern;
  subject = take_chars 200 subject;
  severity = g.severity;
}

pub record_evidence : Evidence → GleanAuditor → GleanAuditor
record_evidence e a = record a { evidence = a.evidence ++ e ∷ [] }

pub record Summary : Type 0 where
  pub guidelines_checked : ℕ
  pub violation_count : ℕ
  pub blocking_violations : ℕ
  pub evidence_entries : ℕ
  pub compliant : Bool

pub summary : GleanAuditor → Summary
summary a =
    let blocking = keep is_block a.violations in
    record {
      guidelines_checked = length a.guidelines;
      violation_count = length a.violations;
      blocking_violations = length blocking;
      evidence_entries = length a.evidence;
      compliant = length blocking == 0;
    }

-- The dicts hold the fields of the violations.
pub export_violations : GleanAuditor → List GuidelineViolation
export_violations a = a.violations

module _ (search : String → String → Bool) where
  -- The loop of check_pre_execution: the auditor's violations and the blocking ones so far.
  pub pre_loop :
      String
      → String
      → List Guideline
      → List GuidelineViolation
      → List GuidelineViolation
      → List GuidelineViolation × List GuidelineViolation
  pre_loop tool subject [] recorded blocking = (recorded, blocking)
  pre_loop tool subject (g ∷ gs) recorded blocking =
      let v = violation tool subject g in
      let hit = is_pre g && search g.pattern subject in
      pre_loop tool subject gs (if hit then recorded ++ v ∷ [] else recorded)
        (if hit && is_block v then blocking ++ v ∷ [] else blocking)

  pub check_pre_execution : String → String → GleanAuditor → GleanAuditor × List GuidelineViolation
  unfolding pre_loop
  check_pre_execution tool subject a =
      let (recorded, blocking) = pre_loop tool subject a.guidelines a.violations [] in
      (record a { violations = recorded }, blocking)

  pub post_loop :
      String
      → String
      → List Guideline
      → List GuidelineViolation
      → List GuidelineViolation
      → List GuidelineViolation × List GuidelineViolation
  post_loop tool subject [] recorded found = (recorded, found)
  post_loop tool subject (g ∷ gs) recorded found =
      let v = violation tool subject g in
      let hit = is_post g && search g.pattern subject in
      post_loop tool subject gs (if hit then recorded ++ v ∷ [] else recorded)
        (if hit then found ++ v ∷ [] else found)

  pub check_post_execution : String → String → GleanAuditor → GleanAuditor × List GuidelineViolation
  unfolding post_loop
  check_post_execution tool subject a =
      let (recorded, found) = post_loop tool subject a.guidelines a.violations [] in
      (record a { violations = recorded }, found)
