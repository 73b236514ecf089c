-- ===== src/Meta/Scheduler/Tables.antt =====
-- How the scheduler's tables read after each kind of write.
use lula.Prelude.{
  suc, ◌≤◌, String, ◌≡◌, refl, Bool, true, false, not, Option, none, some, List, [], ◌∷◌, ◌++◌,
  arith, str_eq, eq_iff, if◌then◌else◌, keep, map, count_if,
}
use lula.Prelude.Members.{contains, IsDistinct, IsDistinct-keep}
use lula.Meta.Task.{TaskStatus, skipped, SubAgentTask}
use lula.Meta.Scheduler.{
  Stage, queued, active, ended, status_of, stage_of, assign, set_stage, pop, skip_if, done_ids,
  active_count,
}

abbrev pub override {ℓ} : {A : Type ℓ} → A → Option A → Option A
override a none = none
override a (some b) = some a

abbrev pub or_else {ℓ} : {A : Type ℓ} → Option A → Option A → Option A
or_else (some a) r = some a
or_else none r = r

abbrev pub skipping : (TaskStatus → Bool) → Option TaskStatus → Option TaskStatus
skipping test none = none
skipping test (some st) = if test st then some skipped else some st

abbrev pub live_ids : List (String × Stage) → List String
live_ids live = map (λ e. e.0) live

pub status_of-assign :
    (i j : String) (st : TaskStatus) (e : Option String) (ts : List SubAgentTask)
    → status_of j (assign i st e ts)
      ≡ (if str_eq i j then override st (status_of j ts) else status_of j ts)
unfolding status_of assign
status_of-assign i j st e [] = ground arith
status_of-assign i j st e (t ∷ ts) =
    ground (arith, status_of-assign i j st e ts, eq_iff i j, eq_iff t.task_id i, eq_iff t.task_id j)

pub status_of-skip_if :
    (test : TaskStatus → Bool) (j : String) (ts : List SubAgentTask)
    → status_of j (skip_if test ts) ≡ skipping test (status_of j ts)
unfolding status_of skip_if
status_of-skip_if test j [] = refl
status_of-skip_if test j (t ∷ ts) = ground (arith, status_of-skip_if test j ts)

pub stage_of-set_stage :
    (i j : String) (g : Stage) (live : List (String × Stage))
    → stage_of j (set_stage i g live)
      ≡ (if str_eq i j then override g (stage_of j live) else stage_of j live)
unfolding stage_of set_stage
stage_of-set_stage i j g [] = ground arith
stage_of-set_stage i j g ((k, h) ∷ rest) =
    ground (arith, stage_of-set_stage i j g rest, eq_iff i j, eq_iff k i, eq_iff k j)

pub stage_of-pop :
    (i j : String) (live : List (String × Stage))
    → stage_of j (pop i live) ≡ (if str_eq i j then none else stage_of j live)
unfolding stage_of pop keep
stage_of-pop i j [] = ground arith
stage_of-pop i j ((k, h) ∷ rest) =
    ground (arith, stage_of-pop i j rest, eq_iff i j, eq_iff k i, eq_iff k j)

pub stage_of-append :
    (j : String) (live more : List (String × Stage))
    → stage_of j (live ++ more) ≡ or_else (stage_of j live) (stage_of j more)
unfolding stage_of
stage_of-append j [] more = refl
stage_of-append j ((k, h) ∷ rest) more = ground (arith, stage_of-append j rest more)

pub live_ids-set_stage :
    (i : String) (g : Stage) (live : List (String × Stage))
    → live_ids (set_stage i g live) ≡ live_ids live
unfolding set_stage
live_ids-set_stage i g [] = refl
live_ids-set_stage i g ((k, h) ∷ rest) = ground (arith, live_ids-set_stage i g rest)

live_ids-pop :
    (i : String) (live : List (String × Stage))
    → live_ids (pop i live) ≡ keep (λ k. not (str_eq k i)) (live_ids live)
unfolding pop keep
live_ids-pop i [] = refl
live_ids-pop i ((k, h) ∷ rest) = ground (arith, live_ids-pop i rest)

pub pop-IsDistinct :
    (i : String) (live : List (String × Stage))
    → IsDistinct (live_ids live)
    → IsDistinct (live_ids (pop i live))
pop-IsDistinct i live d =
    rw (live_ids-pop i live) (IsDistinct-keep (λ k. not (str_eq k i)) (live_ids live) d)

pub live_ids-append :
    (live more : List (String × Stage)) → live_ids (live ++ more) ≡ live_ids live ++ live_ids more
live_ids-append [] more = refl
live_ids-append ((k, h) ∷ rest) more = ground (arith, live_ids-append rest more)

pub stage_of-none :
    (i : String) (live : List (String × Stage))
    → stage_of i live ≡ none
    → contains i (live_ids live) ≡ false
unfolding stage_of contains
stage_of-none i [] h = refl
stage_of-none i ((k, g) ∷ rest) h = ground (arith, stage_of-none i rest)

-- A live id that stands in the done set has ended.
pub done_ids-ended :
    (i : String) (live : List (String × Stage))
    → IsDistinct (live_ids live)
    → contains i (done_ids live) ≡ true
    → (stage_of i live ≡ some ended) × (contains i (live_ids live) ≡ true)
unfolding stage_of contains done_ids
done_ids-ended i [] d h = cc
done_ids-ended i ((k, ended) ∷ rest) d h =
    ground (arith, done_ids-ended i rest d.1, eq_iff k i, d.0)
done_ids-ended i ((k, queued) ∷ rest) d h =
    ground (arith, done_ids-ended i rest d.1, eq_iff k i, d.0)
done_ids-ended i ((k, active) ∷ rest) d h =
    ground (arith, done_ids-ended i rest d.1, eq_iff k i, d.0)

pub ended-done_ids :
    (i : String) (live : List (String × Stage))
    → stage_of i live ≡ some ended
    → contains i (done_ids live) ≡ true
unfolding stage_of contains done_ids
ended-done_ids i [] h = cc
ended-done_ids i ((k, ended) ∷ rest) h = ground (arith, ended-done_ids i rest)
ended-done_ids i ((k, queued) ∷ rest) h = ground (arith, ended-done_ids i rest)
ended-done_ids i ((k, active) ∷ rest) h = ground (arith, ended-done_ids i rest)

pub active_count-set_stage-le :
    (i : String) (g : Stage) (live : List (String × Stage))
    → active_count (set_stage i g live) ≤ suc (active_count live)
unfolding set_stage count_if
active_count-set_stage-le i g [] = omega arith
active_count-set_stage-le i g ((k, h) ∷ rest) = ground (arith, active_count-set_stage-le i g rest)

pub active_count-set_ended-le :
    (i : String) (live : List (String × Stage))
    → active_count (set_stage i ended live) ≤ active_count live
unfolding set_stage count_if
active_count-set_ended-le i [] = omega arith
active_count-set_ended-le i ((k, h) ∷ rest) = ground (arith, active_count-set_ended-le i rest)

pub active_count-pop-le :
    (i : String) (live : List (String × Stage)) → active_count (pop i live) ≤ active_count live
unfolding pop keep count_if
active_count-pop-le i [] = omega arith
active_count-pop-le i ((k, h) ∷ rest) = ground (arith, active_count-pop-le i rest)

pub active_count-queue :
    (i : String) (live : List (String × Stage))
    → active_count (live ++ (i, queued) ∷ []) ≡ active_count live
unfolding count_if
active_count-queue i [] = refl
active_count-queue i ((k, h) ∷ rest) = ground (arith, active_count-queue i rest)

pub stage_of-queue :
    (i j : String) (live : List (String × Stage))
    → stage_of j (live ++ (i, queued) ∷ [])
      ≡ (if str_eq i j then or_else (stage_of j live) (some queued) else stage_of j live)
unfolding stage_of
stage_of-queue i j live = ground (arith, stage_of-append j live ((i, queued) ∷ []))
