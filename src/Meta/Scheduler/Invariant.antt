-- ===== src/Meta/Scheduler/Invariant.antt =====
-- The invariant of the scheduler, task by task, and the transitions of one coroutine.
use lula.Prelude.{
  ◌≤◌, ◌<◌, String, ◌≡◌, ◌≢◌, ◌⊎◌, inl, inr, Bool, true, false, ◌||◌, Option, none, some, arith,
  str_eq-cases, if◌then◌else◌,
}
use lula.Prelude.Members.{contains, IsDistinct}
use lula.Meta.Task.{TaskStatus, pending, running, success, failed, skipped}
use lula.Meta.Scheduler.{
  is_pending, is_running, Stage, queued, active, ended, Phase, waiting, cancelling, finished,
  Config, State, status_of, stage_of, set_stage, is_some_running, is_some_success, Ending, returned,
  raised, aborted, finish, acquire, active_count,
}
use lula.Meta.Scheduler.Tables.{
  override, skipping, live_ids, status_of-assign, stage_of-set_stage, live_ids-set_stage,
  active_count-set_stage-le, active_count-set_ended-le,
}

-- One task: is its id in `completed` and in `started`, its status, and the stage of its coroutine.
pub record Local (done begun : Bool) (st : Option TaskStatus) (stage : Option Stage) (p : Phase)
    : Type 0 where
  pub done_success : done ≡ true → st ≡ some success
  pub done_gone : done ≡ true → stage ≡ none
  pub live_begun : stage ≢ none → begun ≡ true
  pub begun_known : begun ≡ true → st ≢ none
  pub running_begun : st ≡ some running → begun ≡ true
  pub success_begun : st ≡ some success → begun ≡ true
  pub failed_begun : st ≡ some failed → begun ≡ true
  pub active_running : stage ≡ some active → st ≡ some running
  pub running_live : st ≡ some running → (stage ≡ some active) ⊎ (stage ≡ some ended)
  pub success_done : st ≡ some success → (done ≡ true) ⊎ (stage ≡ some ended) ⊎ (p ≡ finished)
  pub pending_queued : st ≡ some pending → begun ≡ true → stage ≡ some queued
  pub waiting_unskipped : p ≡ waiting → st ≢ some skipped
  pub cancelling_launched : p ≡ cancelling → st ≢ some pending
  pub finished_settled : p ≡ finished → (st ≢ some pending) × (st ≢ some running)

abbrev pub At : State → Phase → String → Type 0
At s p i =
    Local (contains i s.completed) (contains i s.started) (status_of i s.tasks) (stage_of i s.live)
      p

pub record Inv (c : Config) (p : Phase) (s : State) : Type 0 where
  pub room : active_count s.live ≤ c.max_parallel
  pub distinct : IsDistinct (live_ids s.live)
  pub at : (i : String) → At s p i

module _ {done begun : Bool} {st : Option TaskStatus} where
  Local-acquire :
      Local done begun st (some queued) waiting
      → Local done begun (override running st) (some active) waiting
  Local-acquire h = ground arith

  Local-drop :
      Local done begun st (some queued) cancelling → Local done begun st (some ended) cancelling
  Local-drop h = ground arith

module _ {done begun : Bool} {st : Option TaskStatus} {p : Phase} where
  Local-success :
      Local done begun st (some active) p → Local done begun (override success st) (some ended) p
  Local-success h = ground arith

  Local-failed :
      Local done begun st (some active) p → Local done begun (override failed st) (some ended) p
  Local-failed h = ground arith

  Local-aborted : Local done begun st (some active) p → Local done begun st (some ended) p
  Local-aborted h = ground arith

  pub Local-launch :
      {stage : Option Stage}
      → st ≢ none
      → begun ≡ false
      → Local done begun st stage p
      → Local done true st (some queued) p
  Local-launch k b h = ground arith

-- One task that ended, behind the body of the loop over the done set.
pub Local-process :
    (done begun : Bool) (st : Option TaskStatus)
    → Local done begun st (some ended) waiting
    → let st' = if is_some_running st then override failed st else st in
      Local (is_some_success st' || done) begun st' none waiting
Local-process done begun st h = ground arith

pub Local-skip :
    (done begun : Bool) (st : Option TaskStatus) (stage : Option Stage)
    → Local done begun st stage waiting
    → Local done begun (skipping is_pending st) stage cancelling
Local-skip done begun st stage h = ground arith

pub Local-over :
    (done begun : Bool) (st : Option TaskStatus)
    → Local done begun st none waiting
    → Local done begun (skipping is_pending st) none finished
Local-over done begun st h = ground arith

pub Local-conclude :
    (done begun : Bool) (st : Option TaskStatus) (stage : Option Stage)
    → Local done begun st stage cancelling
    → Local done begun (skipping is_running st) none finished
Local-conclude done begun st stage h = ground arith

module _ (c : Config) (s : State) (i : String) where
  pub acquire-Inv :
      stage_of i s.live ≡ some queued
      → active_count s.live < c.max_parallel
      → Inv c waiting s
      → Inv c waiting (acquire i s)
  unfolding acquire
  acquire-Inv q free inv = record {
    room = omega (arith, active_count-set_stage-le i active s.live);
    distinct = rw (live_ids-set_stage i active s.live) inv.distinct;
    at = λ j.
        rw (status_of-assign i j running none s.tasks, stage_of-set_stage i j active s.live)
          (elim (str_eq-cases i j) [
            | inl (e, t) ↦ let q' = rw e at q in rw (t, q') (Local-acquire (rw q' at (inv.at j)))
            | inr (n, t) ↦ rw t (inv.at j)
          ]);
  }

  pub drop-Inv :
      stage_of i s.live ≡ some queued
      → Inv c cancelling s
      → Inv c cancelling (record s { live = set_stage i ended s.live })
  drop-Inv q inv = record {
    room = omega (arith, inv.room, active_count-set_ended-le i s.live);
    distinct = rw (live_ids-set_stage i ended s.live) inv.distinct;
    at = λ j. rw (stage_of-set_stage i j ended s.live) (elim (str_eq-cases i j) [
      | inl (e, t) ↦ let q' = rw e at q in rw (t, q') (Local-drop (rw q' at (inv.at j)))
      | inr (n, t) ↦ rw t (inv.at j)
    ]);
  }

  pub finish-Inv :
      (e : Ending) (p : Phase)
      → stage_of i s.live ≡ some active
      → Inv c p s
      → Inv c p (finish c i e s)
  unfolding finish
  finish-Inv (returned raw) p a inv = record {
    room = omega (arith, inv.room, active_count-set_ended-le i s.live);
    distinct = rw (live_ids-set_stage i ended s.live) inv.distinct;
    at = λ j.
        rw (status_of-assign i j success none s.tasks, stage_of-set_stage i j ended s.live)
          (elim (str_eq-cases i j) [
            | inl (e, t) ↦ let q = rw e at a in rw (t, q) (Local-success (rw q at (inv.at j)))
            | inr (n, t) ↦ rw t (inv.at j)
          ]);
  }
  finish-Inv (raised m) p a inv = record {
    room = omega (arith, inv.room, active_count-set_ended-le i s.live);
    distinct = rw (live_ids-set_stage i ended s.live) inv.distinct;
    at = λ j.
        rw (status_of-assign i j failed (some m) s.tasks, stage_of-set_stage i j ended s.live)
          (elim (str_eq-cases i j) [
            | inl (e, t) ↦ let q = rw e at a in rw (t, q) (Local-failed (rw q at (inv.at j)))
            | inr (n, t) ↦ rw t (inv.at j)
          ]);
  }
  finish-Inv aborted p a inv = record {
    room = omega (arith, inv.room, active_count-set_ended-le i s.live);
    distinct = rw (live_ids-set_stage i ended s.live) inv.distinct;
    at = λ j. rw (stage_of-set_stage i j ended s.live) (elim (str_eq-cases i j) [
      | inl (e, t) ↦ let q = rw e at a in rw (t, q) (Local-aborted (rw q at (inv.at j)))
      | inr (n, t) ↦ rw t (inv.at j)
    ]);
  }
