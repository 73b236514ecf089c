-- ===== src/Healing.antt =====
-- py/src/lg_orch/healing_loop.py: the queue of healing jobs and the loop that runs them, as a
-- transition system. The job objects stand in `jobs`, in the order of `_job_history`, and are known
-- by their places in it: `_pending_jobs` and a batch hold the same objects. `_lock` is taken by the
-- one coroutine of the loop alone. Times, ids and the log lines are left out.
pub mod Queue
pub mod Runs
pub mod Commands
mod Examples
use lula.Prelude.{
  ℕ, zero, suc, ◌+◌, ◌<◌, String, ◌≡◌, Bool, true, false, ◌&&◌, ◌||◌, Option, none, some, List, [],
  ◌∷◌, ◌++◌, ltb, ◌==◌, if◌then◌else◌, length, take, drop, keep, not,
}

pub data JobStatus : Type 0 where
  queued running healed failed skipped : JobStatus

pub record HealingJob : Type 0 where
  pub failing_tests : List String
  pub priority : ℕ
  pub status : JobStatus

pub record TestSuiteResult : Type 0 where
  pub passed : ℕ
  pub failures : ℕ
  pub errors : ℕ
  pub failed_tests : List String

-- What the regular expressions find in the output.
pub record Patterns : Type 0 where
  pub find_passed : String → Option ℕ
  pub find_failed : String → Option ℕ
  pub find_error : String → Option ℕ
  pub find_failed_lines : String → List String

-- How the test command ended: refused by the allowlist, or with an exit code and its output. An
-- error in starting it counts as exit code 2, with its text as the output.
pub data CommandEnd : Type 0 where
  blocked : CommandEnd
  exited : ℕ → String → CommandEnd

or_zero : Option ℕ → ℕ
or_zero none = 0
or_zero (some n) = n

pub poll_once : Patterns → CommandEnd → TestSuiteResult
unfolding or_zero
poll_once re blocked = record { passed = 0; failures = 0; errors = 1; failed_tests = [] }
poll_once re (exited code output) =
    let failures = or_zero (re.find_failed output) in
    let errors = or_zero (re.find_error output) in
    record {
      passed = or_zero (re.find_passed output);
      failures = failures;
      errors = if code == 2 && errors == 0 && failures == 0 then 1 else errors;
      failed_tests = re.find_failed_lines output;
    }

-- Where the loop is: in the test command, in the task group, in the task group after it was
-- cancelled, in the sleep, or at its end.
pub data Phase : Type 0 where
  polling dispatching cancelling sleeping stopped : Phase

pub record HealingLoop : Type 0 where
  pub jobs : List HealingJob
  pub pending : List ℕ
  -- The jobs of the batch whose coroutine has not ended.
  pub live : List ℕ
  pub phase : Phase

-- job.status = st
pub set_status : ℕ → JobStatus → List HealingJob → List HealingJob
set_status i st [] = []
set_status zero st (j ∷ js) = record j { status = st } ∷ js
set_status (suc i) st (j ∷ js) = j ∷ set_status i st js

unfoldable pub status_of : List HealingJob → ℕ → Option JobStatus
status_of [] i = none
status_of (j ∷ js) zero = some j.status
status_of (j ∷ js) (suc i) = status_of js i

pub mark_running : List ℕ → List HealingJob → List HealingJob
mark_running [] js = js
mark_running (i ∷ is) js = mark_running is (set_status i running js)

pub enqueue : TestSuiteResult → HealingLoop → HealingLoop
enqueue r s =
    if ltb 0 r.failures
    then record s {
      jobs =
          s.jobs ++ record { failing_tests = r.failed_tests; priority = 1; status = queued } ∷ [];
      pending = s.pending ++ length s.jobs ∷ [];
    }
    else s

pub phase_of_batch : List ℕ → Phase
phase_of_batch [] = sleeping
phase_of_batch (i ∷ is) = dispatching

-- _dispatch_pending_jobs, to the task group or to its early return.
pub dispatch_pending_jobs : ℕ → HealingLoop → HealingLoop
dispatch_pending_jobs max_concurrent s =
    let batch = take max_concurrent s.pending in
    record {
      jobs = mark_running batch s.jobs;
      pending = drop max_concurrent s.pending;
      live = batch;
      phase = phase_of_batch batch;
    }

pub contains_place : ℕ → List ℕ → Bool
contains_place i [] = false
contains_place i (k ∷ ks) = (k == i) || contains_place i ks

-- How a graph runner ends: with a verification that is "ok" or not, or with an exception. `no_runner`
-- is a loop without a graph runner, and `aborted` a job that was cancelled.
pub data JobEnd : Type 0 where
  no_runner verified unverified raised aborted : JobEnd

pub end_status : JobEnd → JobStatus
end_status no_runner = skipped
end_status verified = healed
end_status unverified = failed
end_status raised = failed
end_status aborted = running

pub run_job : ℕ → JobEnd → HealingLoop → HealingLoop
unfolding end_status
run_job i e s = record s {
  jobs = set_status i (end_status e) s.jobs;
  live = keep (λ k. not (k == i)) s.live;
}

pub get_job_history : HealingLoop → List HealingJob
get_job_history s = s.jobs

-- The places of the pending jobs in the history.
pub get_pending_jobs : HealingLoop → List ℕ
get_pending_jobs s = s.pending

pub start : HealingLoop
start = record { jobs = []; pending = []; live = []; phase = polling }

pub data Step (max_concurrent : ℕ) : HealingLoop → HealingLoop → Type 0 where
  polls :
      (s : HealingLoop) (r : TestSuiteResult)
      → s.phase ≡ polling
      → Step max_concurrent s (dispatch_pending_jobs max_concurrent (enqueue r s))
  ends :
      (s : HealingLoop) (i : ℕ) (e : JobEnd)
      → contains_place i s.live ≡ true
      → Step max_concurrent s (run_job i e s)
  finishes :
      (s : HealingLoop)
      → s.phase ≡ dispatching
      → s.live ≡ []
      → Step max_concurrent s (record s { phase = sleeping })
  wakes :
      (s : HealingLoop) → s.phase ≡ sleeping → Step max_concurrent s (record s { phase = polling })
  cancels :
      (s : HealingLoop)
      → s.phase ≡ dispatching
      → Step max_concurrent s (record s { phase = cancelling })
  stops_group :
      (s : HealingLoop)
      → s.phase ≡ cancelling
      → s.live ≡ []
      → Step max_concurrent s (record s { phase = stopped })
  stops_polling :
      (s : HealingLoop) → s.phase ≡ polling → Step max_concurrent s (record s { phase = stopped })
  stops_sleeping :
      (s : HealingLoop) → s.phase ≡ sleeping → Step max_concurrent s (record s { phase = stopped })

pub data Reach (max_concurrent : ℕ) : HealingLoop → Type 0 where
  here : Reach max_concurrent start
  next :
      {s t : HealingLoop}
      → Reach max_concurrent s
      → Step max_concurrent s t
      → Reach max_concurrent t

-- What a run of the loop on concrete input computes with.
unfoldable pub healing_parts : Unit {0}
unfolding or_zero poll_once set_status mark_running enqueue phase_of_batch dispatch_pending_jobs
    contains_place end_status run_job start keep
healing_parts = tt
