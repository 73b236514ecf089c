-- ===== src/Meta/Scheduler.antt =====
-- MetaGraphScheduler.run (py/src/lg_orch/meta_graph.py) as a transition system.
-- The scheduler's own code runs between two awaits without interruption: it is the functions below.
-- What the event loop and the sub-agents choose is the relation `Step`: which coroutine gets the
-- semaphore, which one ends and how, and when `asyncio.wait` returns.
pub mod Tables
pub mod Invariant
pub mod Turns
pub mod Runs
pub mod Outcome
pub mod Rewiring
pub mod Skips
pub mod Done
use lula.Prelude.{
  ℕ, zero, suc, ◌<◌, max, String, ◌≡◌, Bool, true, false, not, ◌&&◌, ◌||◌, Option, none, some, List,
  [], ◌∷◌, ◌++◌, str_eq, ◌==◌, if◌then◌else◌, length, keep, all, any, map, count_if,
}
use lula.Prelude.Members.{contains}
use lula.Meta.Task.{
  TaskStatus, pending, running, success, failed, skipped, SubAgentTask, DependencyGraph,
}
use lula.Meta.Edges.{
  Built, built, refused, deps_at, RawPatch, maybe_apply_patch, new_graph, edges_parts,
}

abbrev pub is_pending : TaskStatus → Bool
is_pending pending = true
is_pending _ = false

abbrev pub is_running : TaskStatus → Bool
is_running running = true
is_running _ = false

abbrev pub is_success : TaskStatus → Bool
is_success success = true
is_success _ = false

abbrev pub is_failed : TaskStatus → Bool
is_failed failed = true
is_failed _ = false

abbrev pub is_skipped : TaskStatus → Bool
is_skipped skipped = true
is_skipped _ = false

-- Where the coroutine of a launched task is: before the semaphore, inside it, or at its end.
pub data Stage : Type 0 where
  queued active ended : Stage

abbrev pub is_active : Stage → Bool
is_active active = true
is_active _ = false

-- Where `run` is: in the `asyncio.wait` of the loop, in the one after `cancel`, or behind the loop.
pub data Phase : Type 0 where
  waiting cancelling finished : Phase

pub record Config : Type 0 where
  pub max_parallel : ℕ
  pub fail_fast : Bool
  pub dynamic_rewiring : Bool

-- `max_parallel` as __init__ keeps it.
unfoldable pub config : ℕ → Bool → Bool → Config
config n fail_fast dynamic_rewiring = record {
  max_parallel = max 1 n;
  fail_fast = fail_fast;
  dynamic_rewiring = dynamic_rewiring;
}

pub record State : Type 0 where
  pub tasks : List SubAgentTask
  pub dag : DependencyGraph
  pub completed : List String
  pub failed_ids : List String
  pub started : List String
  -- The dict `running`, by task id, with the stage of each coroutine.
  pub live : List (String × Stage)
  pub phase : Phase

-- The status of the task object of that id.
unfoldable pub status_of : String → List SubAgentTask → Option TaskStatus
status_of i [] = none
status_of i (t ∷ ts) = if str_eq t.task_id i then some t.status else status_of i ts

unfoldable pub stage_of : String → List (String × Stage) → Option Stage
stage_of i [] = none
stage_of i ((k, g) ∷ rest) = if str_eq k i then some g else stage_of i rest

abbrev latest : Option String → Option String → Option String
latest none old = old
latest (some message) old = some message

-- `task.status = st` on the object of that id, and `task.error = e` if there is a message.
pub assign : String → TaskStatus → Option String → List SubAgentTask → List SubAgentTask
assign i st e ts =
    map (λ t. if str_eq t.task_id i then record t { status = st; error = latest e t.error } else t)
      ts

pub set_stage : String → Stage → List (String × Stage) → List (String × Stage)
set_stage i g [] = []
set_stage i g ((k, h) ∷ rest) = if str_eq k i then (k, g) ∷ rest else (k, h) ∷ set_stage i g rest

-- running.pop(...)
pub pop : String → List (String × Stage) → List (String × Stage)
pop i live = keep (λ e. not (str_eq e.0 i)) live

pub ready_tasks : List SubAgentTask → DependencyGraph → List String → List SubAgentTask
ready_tasks tasks dag completed =
    keep
      (λ t.
        is_pending t.status && all (λ d. contains d completed) (deps_at dag.depends_on t.task_id))
      tasks

-- No pending task could still be launched: each has a dependency that failed.
pub all_done : List SubAgentTask → DependencyGraph → List String → Bool
all_done tasks dag failed_ids =
    all
      (λ t.
        not (is_pending t.status)
        || any (λ d. contains d failed_ids) (deps_at dag.depends_on t.task_id))
      tasks

-- The launching loop.
pub launch : List SubAgentTask → State → State
launch [] s = s
launch (t ∷ ts) s = launch ts (
    if contains t.task_id s.started
    then s
    else record s { started = t.task_id ∷ s.started; live = s.live ++ (t.task_id, queued) ∷ [] })

-- if t.status == "pending": t.status = "skipped", over all tasks.
pub skip_if : (TaskStatus → Bool) → List SubAgentTask → List SubAgentTask
skip_if test ts = map (λ t. if test t.status then record t { status = skipped } else t) ts

guard_end : State → List (String × Stage) → State
guard_end s [] = record s { tasks = skip_if is_pending s.tasks; phase = finished }
guard_end s (e ∷ rest) = record s { phase = waiting }

-- From the top of the loop to its `await`, or to its `break`.
pub turn : State → State
unfolding guard_end
turn s = let s' = launch (ready_tasks s.tasks s.dag s.completed) s in guard_end s' s'.live

-- The body of the loop over `done_set`, after the status was read.
file : String → Bool → State → State
file i done s = record s {
  completed = if done then i ∷ s.completed else s.completed;
  failed_ids = if done then s.failed_ids else i ∷ s.failed_ids;
}

abbrev is_some_running : Option TaskStatus → Bool
is_some_running (some running) = true
is_some_running _ = false

abbrev is_some_success : Option TaskStatus → Bool
is_some_success (some success) = true
is_some_success _ = false

-- "running" here means that the coroutine ended without setting a status.
mark_cancelled : String → List SubAgentTask → List SubAgentTask
mark_cancelled i ts =
    if is_some_running (status_of i ts)
    then assign i failed (some "cancelled before completion") ts
    else ts

pub process : String → State → State
unfolding file
process i s =
    let tasks' = mark_cancelled i s.tasks in
    file i (is_some_success (status_of i tasks')) (record s { tasks = tasks'; live = pop i s.live })

pub process_all : List String → State → State
process_all [] s = s
process_all (i ∷ is) s = process_all is (process i s)

-- The done set of `asyncio.wait`: the tasks whose coroutine has ended.
pub done_ids : List (String × Stage) → List String
done_ids [] = []
done_ids ((i, ended) ∷ rest) = i ∷ done_ids rest
done_ids ((i, queued) ∷ rest) = done_ids rest
done_ids ((i, active) ∷ rest) = done_ids rest

-- Some task of the done set did not succeed: `new_failures` is not empty.
pub any_failed : List String → List SubAgentTask → Bool
any_failed [] tasks = false
any_failed (i ∷ is) tasks = not (is_some_success (status_of i tasks)) || any_failed is tasks

-- From the return of `asyncio.wait` to the next `await` or `break`.
pub wake : Config → State → State
wake c s =
    let done = done_ids s.live in
    let s' = process_all done s in
    if c.fail_fast && any_failed done s'.tasks
    then record s' { tasks = skip_if is_pending s'.tasks; phase = cancelling }
    else turn s'

-- Behind the second wait.
pub conclude : State → State
conclude s = record s { tasks = skip_if is_running s.tasks; live = []; phase = finished }

-- How a coroutine in the semaphore ends. `aborted` is every end that sets no status: it was
-- cancelled, or the worktree was given back with an error after the sub-agent returned.
pub data Ending : Type 0 where
  returned : RawPatch → Ending
  raised : String → Ending
  aborted : Ending

pub finish : Config → String → Ending → State → State
finish c i (returned raw) s = record s {
  tasks = assign i success none s.tasks;
  dag = maybe_apply_patch c.dynamic_rewiring s.dag raw;
  live = set_stage i ended s.live;
}
finish c i (raised message) s = record s {
  tasks = assign i failed (some message) s.tasks;
  live = set_stage i ended s.live;
}
finish c i aborted s = record s { live = set_stage i ended s.live }

pub acquire : String → State → State
acquire i s = record s { tasks = assign i running none s.tasks; live = set_stage i active s.live }

abbrev pub active_count : List (String × Stage) → ℕ
active_count live = count_if (λ e. is_active e.1) live

pub all_ended : List (String × Stage) → Bool
all_ended [] = true
all_ended ((i, ended) ∷ rest) = all_ended rest
all_ended ((i, queued) ∷ rest) = false
all_ended ((i, active) ∷ rest) = false

pub data Step (c : Config) : State → State → Type 0 where
  -- A launched coroutine enters the semaphore, if it has room.
  acquires :
      (s : State) (i : String)
      → s.phase ≡ waiting
      → stage_of i s.live ≡ some queued
      → active_count s.live < c.max_parallel
      → Step c s (acquire i s)
  ends :
      (s : State) (i : String) (e : Ending)
      → stage_of i s.live ≡ some active
      → Step c s (finish c i e s)
  -- A cancelled coroutine that had not entered the semaphore ends there.
  drops :
      (s : State) (i : String)
      → s.phase ≡ cancelling
      → stage_of i s.live ≡ some queued
      → Step c s (record s { live = set_stage i ended s.live })
  wakes :
      (s : State)
      → s.phase ≡ waiting
      → (i : String) → stage_of i s.live ≡ some ended
      → Step c s (wake c s)
  concludes : (s : State) → s.phase ≡ cancelling → all_ended s.live ≡ true → Step c s (conclude s)

-- The state at the first `await` of `run`, for the graph that it built.
pub start : List SubAgentTask → DependencyGraph → State
start tasks dag = turn (record {
  tasks = tasks;
  dag = dag;
  completed = [];
  failed_ids = [];
  started = [];
  live = [];
  phase = waiting;
})

begin_run : Config → List SubAgentTask → Built → Option (Config × State)
begin_run c tasks (built dag) = some (c, start tasks dag)
begin_run c tasks (refused e) = none

-- The scheduler and the state at the first `await` of its `run`; `none` if `run` raises on the graph.
pub run_meta_graph : List SubAgentTask → ℕ → Bool → Bool → Option (Config × State)
unfolding begin_run config
run_meta_graph tasks max_parallel fail_fast dynamic_rewiring =
    begin_run (config max_parallel fail_fast dynamic_rewiring) tasks (new_graph tasks)

pub data Reach (c : Config) (s : State) : State → Type 0 where
  here : Reach c s s
  next : {t u : State} → Reach c s t → Step c t u → Reach c s u

-- The totals that `run` returns.
pub record Totals : Type 0 where
  pub succeeded : ℕ
  pub failures : ℕ
  pub skips : ℕ

unfoldable pub totals : List SubAgentTask → Totals
totals ts = record {
  succeeded = count_if (λ t. is_success t.status) ts;
  failures = count_if (λ t. is_failed t.status) ts;
  skips = count_if (λ t. is_skipped t.status) ts;
}

unfoldable pub all_succeeded : Totals → Bool
all_succeeded r = r.failures == 0 && r.skips == 0

-- What a run of the scheduler on concrete input computes with.
unfoldable pub scheduler_parts : Unit {0}
unfolding edges_parts all any all_done count_if status_of stage_of assign set_stage pop ready_tasks
    launch skip_if guard_end turn file mark_cancelled process process_all done_ids any_failed wake
    conclude finish acquire all_ended start totals config
scheduler_parts = tt
