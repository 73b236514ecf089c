-- ===== src/Meta/Scheduler/Outcome.antt =====
-- The order in which sub-agents run, without rewiring.
use lula.Prelude.{
  String, ◌≡◌, ◌⊎◌, ◌∙◌, inl, inr, true, false, ◌&&◌, some, List, [], ◌∷◌, arith, eq_iff,
  str_eq-cases, keep, all, Bool-cases,
}
use mathlib.Core.Path.{subst}
use lula.Prelude.Members.{contains}
use lula.Meta.Task.{TaskStatus, running, success, failed, SubAgentTask, DependencyGraph, depends}
use lula.Meta.Edges.{deps_at, built, new_graph}
use lula.Meta.Edges.Adjacent.{depends-eq-contains}
use lula.Meta.Edges.Change.{keys-IsDistinct}
use lula.Meta.Scheduler.{
  is_pending, Stage, Config, State, status_of, ready_tasks, launch, guard_end, turn, process,
  process_all, done_ids, any_failed, wake, conclude, acquire, finish, returned, raised, aborted,
  Step, acquires, ends, drops, wakes, concludes, start, Reach, here, next,
}
use lula.Meta.Scheduler.Runs.{AllPending, Reach-Inv}
use lula.Meta.Scheduler.Rewiring.{Reach-static, new_graph-IsValid, process_all-Same}

-- Every launched task has all of its dependencies in `completed`.
abbrev Ordered : DependencyGraph → State → Type 0
Ordered g s =
    (i d : String)
    → contains i s.started ≡ true
    → contains d (deps_at g.depends_on i) ≡ true
    → contains d s.completed ≡ true

all-contains :
    (xs ys : List String) (d : String)
    → all (λ x. contains x ys) xs ≡ true
    → contains d xs ≡ true
    → contains d ys ≡ true
unfolding all contains
all-contains [] ys d h m = cc
all-contains (x ∷ xs) ys d h m = ground (arith, all-contains xs ys d, eq_iff x d)

-- A list of tasks that may be launched.
abbrev Ready : DependencyGraph → List String → List SubAgentTask → Type 0
Ready g completed [] = Unit {0}
Ready g completed (t ∷ ts) =
    (all (λ d. contains d completed) (deps_at g.depends_on t.task_id) ≡ true) × Ready g completed ts

Ready-keep :
    (g : DependencyGraph) (completed : List String) (tasks : List SubAgentTask)
    → Ready g completed (
        keep
          (λ t.
            is_pending t.status && all (λ d. contains d completed) (deps_at g.depends_on t.task_id))
          tasks)
unfolding keep
Ready-keep g completed [] = tt
Ready-keep g completed (t ∷ ts) =
    elim (Bool-cases (all (λ d. contains d completed) (deps_at g.depends_on t.task_id))) [
      | inl e ↦ ground (arith, Ready-keep g completed ts, e)
      | inr e ↦ ground (arith, Ready-keep g completed ts, e)
    ]

launch-Ordered :
    (g : DependencyGraph) (ts : List SubAgentTask) (s : State)
    → Ready g s.completed ts
    → Ordered g s
    → Ordered g (launch ts s)
unfolding launch contains
launch-Ordered g [] s r o = o
launch-Ordered g (t ∷ ts) s r o = elim (Bool-cases (contains t.task_id s.started)) [
  | inl e ↦ rw (e, launch) (launch-Ordered g ts s r.1 o)
  | inr e ↦
      rw (e, launch)
        (launch-Ordered g ts _ r.1 (λ i d m n. elim (str_eq-cases t.task_id i) [
          | inl (p, b) ↦
              all-contains (deps_at g.depends_on i) s.completed d
                (subst (λ k. all (λ x. contains x s.completed) (deps_at g.depends_on k) ≡ true) p
                  r.0)
                n
          | inr (p, b) ↦ o i d (ground arith) n
        ]))
]

turn-Ordered : (s : State) → Ordered s.dag s → Ordered s.dag (turn s)
unfolding turn ready_tasks
turn-Ordered s o = guard (launch (ready_tasks s.tasks s.dag s.completed) s).live (
    launch-Ordered s.dag (ready_tasks s.tasks s.dag s.completed) s
      (Ready-keep s.dag s.completed s.tasks) o)
  where
    guard :
        (l : List (String × Stage))
        → Ordered s.dag (launch (ready_tasks s.tasks s.dag s.completed) s)
        → Ordered s.dag (guard_end (launch (ready_tasks s.tasks s.dag s.completed) s) l)
    guard [] h = unfold guard_end in h
    guard (x ∷ l) h = unfold guard_end in h

process-Ordered :
    (g : DependencyGraph) (i : String) (s : State) → Ordered g s → Ordered g (process i s)
unfolding process contains
process-Ordered g i s o = λ j d m n. ground (arith, o j d)

process_all-Ordered :
    (g : DependencyGraph) (is : List String) (s : State)
    → Ordered g s
    → Ordered g (process_all is s)
unfolding process_all
process_all-Ordered g [] s o = o
process_all-Ordered g (i ∷ is) s o =
    process_all-Ordered g is (process i s) (process-Ordered g i s o)

Step-Ordered :
    {c : Config} {s t : State} (g : DependencyGraph)
    → s.dag ≡ g
    → Step c s t
    → Ordered g s
    → Ordered g t
unfolding acquire finish conclude wake contains
Step-Ordered g same (acquires s i p q free) o = o
Step-Ordered g same (ends s i (returned raw) a) o = o
Step-Ordered g same (ends s i (raised m) a) o = o
Step-Ordered g same (ends s i aborted a) o = o
Step-Ordered g same (drops s i p q) o = o
Step-Ordered {c} g same (wakes s p i e) o =
    let s' = process_all (done_ids s.live) s in
    let o' = process_all-Ordered g (done_ids s.live) s o in
    let same' : s'.dag ≡ g = (process_all-Same (done_ids s.live) s).graph ∙ same in
    elim (Bool-cases (c.fail_fast && any_failed (done_ids s.live) s'.tasks)) [
      | inl b ↦ rw (b, wake) o'
      | inr b ↦
          rw (b, wake) (subst (λ h. Ordered h (turn s')) same' (turn-Ordered s' (rw same' o')))
    ]
Step-Ordered g same (concludes s p e) o = o

module _ (c : Config) (tasks : List SubAgentTask) (dag : DependencyGraph)
    (accepted : new_graph tasks ≡ built dag) (fresh : AllPending tasks)
    (static : c.dynamic_rewiring ≡ false) where
  Reach-Ordered : (s : State) → Reach c (start tasks dag) s → Ordered dag s
  unfolding contains
  Reach-Ordered s here = unfold start in turn-Ordered _ (λ i d m n. cc)
  Reach-Ordered s (next {t = t} r st) =
      Step-Ordered dag (Reach-static c tasks dag t static r) st (Reach-Ordered t r)

  -- Without rewiring, for tasks that all begin pending and of which the constructor built a graph: in
  -- every reachable state, a task has status "running", "success" or "failed" only if each task that
  -- it depends on has status "success".
  pub dependencies_first :
      (s : State) (i d : String) (st : TaskStatus)
      → Reach c (start tasks dag) s
      → status_of i s.tasks ≡ some st
      → (st ≡ running) ⊎ (st ≡ success) ⊎ (st ≡ failed)
      → depends dag.depends_on i d ≡ true
      → status_of d s.tasks ≡ some success
  dependencies_first s i d st r e busy dep =
      let keys = keys-IsDistinct dag (new_graph-IsValid tasks dag accepted).formed in
      let inv = Reach-Inv tasks dag fresh r in
      let begun : contains i s.started ≡ true = ground (arith, inv.at i, e, busy) in
      let listed : contains d (deps_at dag.depends_on i) ≡ true =
        rw (depends-eq-contains dag.depends_on i d keys) at dep in
      (inv.at d).done_success (Reach-Ordered s r i d begun listed)
