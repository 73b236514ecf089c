-- ===== src/Meta/Edges/Build.antt =====
-- What DependencyGraph.__init__ accepts.
use lula.Prelude.{
  String, ◌≡◌, refl, ap, sym, true, false, Option, none, some, List, [], ◌∷◌, arith, ◌==◌, length,
  Bool-cases, inl, inr,
}
use lula.Prelude.Members.{
  contains, IsDistinct, set_of, contains-set_of, set_of-IsDistinct, IsDistinct-iff-length-set_of,
}
use lula.Meta.Task.{
  SubAgentTask, Adjacency, GraphError, duplicate_ids, unknown_dependency, cycle_detected,
  unknown_task, out_of_rounds, depends, keys_of, IsWellFormed, IsDag, IsValid,
}
use lula.Meta.Validate.{validate}
use lula.Meta.Validate.Correct.{Explains, validate-Explains}
use lula.Meta.Edges.{Built, built, refused, ids_of, adjacency_of, graph_of, or_refused, new_graph}

-- What each outcome of the constructor says of the tasks.
abbrev pub Accounts : List SubAgentTask → Built → Type 0
Accounts tasks (built g) = IsDistinct (ids_of tasks) × (g ≡ graph_of tasks) × IsValid g
Accounts tasks (refused duplicate_ids) = ¬ IsDistinct (ids_of tasks)
Accounts tasks (refused (unknown_dependency t d)) =
    IsDistinct (ids_of tasks)
    × (depends (adjacency_of tasks) t d ≡ true)
    × (contains d (ids_of tasks) ≡ false)
Accounts tasks (refused cycle_detected) =
    IsDistinct (ids_of tasks) × (¬ IsDag (ids_of tasks) (adjacency_of tasks))
Accounts tasks (refused (unknown_task t)) = ⊥
Accounts tasks (refused out_of_rounds) = ⊥

keys_of-adjacency_of : (tasks : List SubAgentTask) → keys_of (adjacency_of tasks) ≡ ids_of tasks
unfolding keys_of
keys_of-adjacency_of [] = refl
keys_of-adjacency_of (t ∷ tasks) = ap (λ r. t.task_id ∷ r) (keys_of-adjacency_of tasks)

graph_of-IsWellFormed :
    (tasks : List SubAgentTask) → IsDistinct (ids_of tasks) → IsWellFormed (graph_of tasks)
graph_of-IsWellFormed tasks d = record {
  tasks_distinct = d;
  ids_distinct = set_of-IsDistinct (ids_of tasks);
  size = sym ((IsDistinct-iff-length-set_of (ids_of tasks)).1 d);
  in_set = λ a m. rw (contains-set_of a (ids_of tasks)) m;
  keys = keys_of-adjacency_of tasks;
}

set_of-IsDag : (ids : List String) (adj : Adjacency) → IsDag ids adj → IsDag (set_of ids) adj
set_of-IsDag ids adj dag = record {
  closed = λ t d e. rw (contains-set_of d ids) (dag.closed t d e);
  rank = dag.rank;
  descends = dag.descends;
}

or_refused-Accounts :
    (tasks : List SubAgentTask) (r : Option GraphError)
    → IsDistinct (ids_of tasks)
    → Explains (set_of (ids_of tasks)) (adjacency_of tasks) r
    → Accounts tasks (or_refused (graph_of tasks) r)
unfolding or_refused
or_refused-Accounts tasks none d h =
    (d, refl, record { formed = graph_of-IsWellFormed tasks d; dag = h })
or_refused-Accounts tasks (some (unknown_dependency t x)) d h =
    (d, h.0, rw (contains-set_of x (ids_of tasks)) at h.1)
or_refused-Accounts tasks (some cycle_detected) d h =
    (d, λ dag. h.1 (set_of-IsDag (ids_of tasks) (adjacency_of tasks) dag))
or_refused-Accounts tasks (some duplicate_ids) d h = absurd h
or_refused-Accounts tasks (some (unknown_task t)) d h = absurd h
or_refused-Accounts tasks (some out_of_rounds) d h = absurd h

-- The constructor accounts for its outcome. A graph that it builds has the ids and edges of the
-- tasks, and satisfies the class invariant: distinct ids, known dependencies, no cycle. It refuses
-- duplicate ids exactly when an id is repeated, an unknown dependency only if some task lists it
-- and no task has its id, and a cycle only if no rank falls along all of the edges.
pub new_graph-Accounts : (tasks : List SubAgentTask) → Accounts tasks (new_graph tasks)
unfolding new_graph
new_graph-Accounts tasks =
    elim (Bool-cases (length (ids_of tasks) == length (set_of (ids_of tasks)))) [
      | inl e ↦
          let d = (IsDistinct-iff-length-set_of (ids_of tasks)).0 (ground arith) in
          rw e (
            or_refused-Accounts tasks (validate (graph_of tasks)) d
              (validate-Explains (graph_of tasks) (graph_of-IsWellFormed tasks d)))
      | inr e ↦ rw e (λ d. ground (arith, (IsDistinct-iff-length-set_of (ids_of tasks)).1 d))
    ]
