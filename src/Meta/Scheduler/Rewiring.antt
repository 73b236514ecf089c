-- ===== src/Meta/Scheduler/Rewiring.antt =====
-- What the scheduler keeps of its task objects and of its live graph.
use lula.Prelude.{
  String, ◌≡◌, refl, ◌∙◌, Bool, true, false, ◌&&◌, Option, none, some, List, [], ◌∷◌, ◌++◌, arith,
  Bool-cases, inl, inr,
}
use mathlib.Core.Path.{subst}
use lula.Prelude.Members.{contains, IsDistinct}
use lula.Meta.Task.{TaskStatus, SubAgentTask, DependencyGraph, IsValid}
use lula.Meta.Edges.{built, ids_of, new_graph, RawPatch, maybe_apply_patch}
use lula.Meta.Edges.Build.{Accounts, new_graph-Accounts}
use lula.Meta.Edges.Patch.{maybe_apply_patch-IsValid}
use lula.Meta.Scheduler.{
  Config, State, Stage, assign, skip_if, mark_cancelled, process, process_all, launch, guard_end,
  turn, any_failed, done_ids, ready_tasks, wake, conclude, acquire, finish, returned, raised,
  aborted, Step, acquires, ends, drops, wakes, concludes, start, Reach, here, next,
}

-- The same task objects, by their ids, and the same live graph.
pub record Same (s t : State) : Type 0 where
  pub ids : ids_of t.tasks ≡ ids_of s.tasks
  pub graph : t.dag ≡ s.dag

Same-trans : (s t u : State) → Same s t → Same t u → Same s u
Same-trans s t u a b = record { ids = b.ids ∙ a.ids; graph = b.graph ∙ a.graph }

ids_of-assign :
    (i : String) (st : TaskStatus) (e : Option String) (ts : List SubAgentTask)
    → ids_of (assign i st e ts) ≡ ids_of ts
unfolding assign
ids_of-assign i st e [] = refl
ids_of-assign i st e (t ∷ ts) = ground (arith, ids_of-assign i st e ts)

ids_of-skip_if :
    (test : TaskStatus → Bool) (ts : List SubAgentTask) → ids_of (skip_if test ts) ≡ ids_of ts
unfolding skip_if
ids_of-skip_if test [] = refl
ids_of-skip_if test (t ∷ ts) = ground (arith, ids_of-skip_if test ts)

process-Same : (i : String) (s : State) → Same s (process i s)
unfolding process mark_cancelled
process-Same i s = record {
  ids =
      ground
        (arith, ids_of-assign i TaskStatus.failed (some "cancelled before completion") s.tasks);
  graph = refl;
}

pub process_all-Same : (is : List String) (s : State) → Same s (process_all is s)
unfolding process_all
process_all-Same [] s = record { ids = refl; graph = refl }
process_all-Same (i ∷ is) s =
    Same-trans s (process i s) (process_all is (process i s)) (process-Same i s)
      (process_all-Same is (process i s))

pub launch-Same : (ts : List SubAgentTask) (s : State) → Same s (launch ts s)
unfolding launch
launch-Same [] s = record { ids = refl; graph = refl }
launch-Same (t ∷ ts) s = elim (Bool-cases (contains t.task_id s.started)) [
  | inl e ↦ rw (e, launch) (launch-Same ts s)
  | inr e ↦
      let s' = record s {
        started = t.task_id ∷ s.started;
        live = s.live ++ (t.task_id, Stage.queued) ∷ [];
      } in
      let later = launch-Same ts s' in
      rw (e, launch) (record { ids = later.ids; graph = later.graph })
]

-- Launching completes nothing.
pub launch_completed : (ts : List SubAgentTask) (s : State) → (launch ts s).completed ≡ s.completed
unfolding launch
launch_completed [] s = refl
launch_completed (t ∷ ts) s = elim (Bool-cases (contains t.task_id s.started)) [
  | inl e ↦ rw (e, launch) (launch_completed ts s)
  | inr e ↦ rw (e, launch) (launch_completed ts _)
]

pub launch_tasks : (ts : List SubAgentTask) (s : State) → (launch ts s).tasks ≡ s.tasks
unfolding launch
launch_tasks [] s = refl
launch_tasks (t ∷ ts) s = elim (Bool-cases (contains t.task_id s.started)) [
  | inl e ↦ rw (e, launch) (launch_tasks ts s)
  | inr e ↦ rw (e, launch) (launch_tasks ts _)
]

guard_end-Same : (s : State) (l : List (String × Stage)) → Same s (guard_end s l)
unfolding guard_end
guard_end-Same s [] = record { ids = ids_of-skip_if _ s.tasks; graph = refl }
guard_end-Same s (x ∷ l) = record { ids = refl; graph = refl }

turn-Same : (s : State) → Same s (turn s)
unfolding turn
turn-Same s =
    let s' = launch (ready_tasks s.tasks s.dag s.completed) s in
    Same-trans s s' (guard_end s' s'.live) (launch-Same (ready_tasks s.tasks s.dag s.completed) s)
      (guard_end-Same s' s'.live)

wake-Same : (c : Config) (s : State) → Same s (wake c s)
unfolding wake
wake-Same c s =
    let s' = process_all (done_ids s.live) s in
    let first = process_all-Same (done_ids s.live) s in
    elim (Bool-cases (c.fail_fast && any_failed (done_ids s.live) s'.tasks)) [
      | inl e ↦
          rw (e, wake) (record { ids = ids_of-skip_if _ s'.tasks ∙ first.ids; graph = first.graph })
      | inr e ↦ rw (e, wake) (Same-trans s s' (turn s') first (turn-Same s'))
    ]

-- A step keeps the ids. It keeps the graph too, but for a sub-agent that returned a patch.
record Kept (c : Config) (s t : State) : Type 0 where
  ids : ids_of t.tasks ≡ ids_of s.tasks
  graph : (raw : RawPatch) × (t.dag ≡ maybe_apply_patch c.dynamic_rewiring s.dag raw)

no_patch : (dynamic : Bool) (g : DependencyGraph) → g ≡ maybe_apply_patch dynamic g RawPatch.absent
unfolding maybe_apply_patch
no_patch true g = refl
no_patch false g = refl

Same-Kept : (c : Config) (s t : State) → Same s t → Kept c s t
Same-Kept c s t a = record {
  ids = a.ids;
  graph = (RawPatch.absent, a.graph ∙ no_patch c.dynamic_rewiring s.dag);
}

Step-Kept : {c : Config} {s t : State} → Step c s t → Kept c s t
unfolding acquire finish conclude
Step-Kept {c} (acquires s i p q free) = record {
  ids = ids_of-assign i TaskStatus.running none s.tasks;
  graph = (RawPatch.absent, no_patch c.dynamic_rewiring s.dag);
}
Step-Kept {c} (ends s i (returned raw) a) = record {
  ids = ids_of-assign i TaskStatus.success none s.tasks;
  graph = (raw, refl);
}
Step-Kept {c} (ends s i (raised m) a) = record {
  ids = ids_of-assign i TaskStatus.failed (some m) s.tasks;
  graph = (RawPatch.absent, no_patch c.dynamic_rewiring s.dag);
}
Step-Kept {c} (ends s i aborted a) = record {
  ids = refl;
  graph = (RawPatch.absent, no_patch c.dynamic_rewiring s.dag);
}
Step-Kept {c} (drops s i p q) = record {
  ids = refl;
  graph = (RawPatch.absent, no_patch c.dynamic_rewiring s.dag);
}
Step-Kept {c} (wakes s p i e) = Same-Kept c s (wake c s) (wake-Same c s)
Step-Kept {c} (concludes s p e) = record {
  ids = ids_of-skip_if _ s.tasks;
  graph = (RawPatch.absent, no_patch c.dynamic_rewiring s.dag);
}

start-Same :
    (tasks : List SubAgentTask) (dag : DependencyGraph)
    → (ids_of (start tasks dag).tasks ≡ ids_of tasks) × ((start tasks dag).dag ≡ dag)
unfolding start
start-Same tasks dag = let same = turn-Same _ in (same.ids, same.graph)

pub Reach-ids :
    (c : Config) (tasks : List SubAgentTask) (dag : DependencyGraph) (s : State)
    → Reach c (start tasks dag) s
    → ids_of s.tasks ≡ ids_of tasks
Reach-ids c tasks dag s here = (start-Same tasks dag).0
Reach-ids c tasks dag s (next {t = t} r st) = (Step-Kept st).ids ∙ Reach-ids c tasks dag t r

-- Without rewiring the live graph is the one built at the start.
pub Reach-static :
    (c : Config) (tasks : List SubAgentTask) (dag : DependencyGraph) (s : State)
    → c.dynamic_rewiring ≡ false
    → Reach c (start tasks dag) s
    → s.dag ≡ dag
unfolding maybe_apply_patch
Reach-static c tasks dag s off here = (start-Same tasks dag).1
Reach-static c tasks dag s off (next {t = t} r st) =
    let (raw, e) = (Step-Kept st).graph in
    let off' : maybe_apply_patch c.dynamic_rewiring t.dag raw ≡ t.dag = ground arith in
    e ∙ off' ∙ Reach-static c tasks dag t off r

new_graph-accepted :
    (tasks : List SubAgentTask) (dag : DependencyGraph)
    → new_graph tasks ≡ built dag
    → Accounts tasks (built dag)
new_graph-accepted tasks dag b = subst (Accounts tasks) b (new_graph-Accounts tasks)

pub new_graph-IsDistinct :
    (tasks : List SubAgentTask) (dag : DependencyGraph)
    → new_graph tasks ≡ built dag
    → IsDistinct (ids_of tasks)
new_graph-IsDistinct tasks dag b = (new_graph-accepted tasks dag b).0

pub new_graph-IsValid :
    (tasks : List SubAgentTask) (dag : DependencyGraph) → new_graph tasks ≡ built dag → IsValid dag
new_graph-IsValid tasks dag b = (new_graph-accepted tasks dag b).2

-- In a run on a graph that the constructor built, the live graph is valid in every reachable state,
-- whatever patches the sub-agents return: its dependencies are tasks, and it has no cycle.
pub Reach-IsValid :
    (c : Config) (tasks : List SubAgentTask) (dag : DependencyGraph) (s : State)
    → new_graph tasks ≡ built dag
    → Reach c (start tasks dag) s
    → IsValid s.dag
Reach-IsValid c tasks dag s b here =
    rw ((start-Same tasks dag).1) ((new_graph-accepted tasks dag b).2)
Reach-IsValid c tasks dag s b (next {t = t} r st) =
    let (raw, e) = (Step-Kept st).graph in
    rw e (maybe_apply_patch-IsValid c.dynamic_rewiring t.dag raw (Reach-IsValid c tasks dag t b r))
