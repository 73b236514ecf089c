-- ===== src/Meta/Validate.antt =====
-- DependencyGraph._validate_no_cycles: Kahn's algorithm, loop by loop.
-- The dicts `in_degree` and `dependents` have the fixed key set `_id_set`, and are functions here.
pub mod Counts
pub mod Rounds
pub mod Correct
use lula.Prelude.{
  ℕ, zero, suc, ◌-◌, String, Bool, true, false, Option, none, some, List, [], ◌∷◌, ◌++◌, str_eq,
  ◌==◌, if◌then◌else◌, length, keep,
}
use lula.Prelude.Members.{contains}
use lula.Meta.Task.{
  Adjacency, DependencyGraph, GraphError, unknown_dependency, cycle_detected, out_of_rounds,
}

-- The first `dep` that no task has, in the order of the two loops.
first_unknown_dep : List String → String → List String → Option GraphError
first_unknown_dep ids task [] = none
first_unknown_dep ids task (dep ∷ deps) =
    let rest = first_unknown_dep ids task deps in
    if contains dep ids then rest else some (unknown_dependency task dep)

or_else : Option GraphError → Option GraphError → Option GraphError
or_else (some e) r = some e
or_else none r = r

pub first_unknown : List String → Adjacency → Option GraphError
unfolding first_unknown_dep or_else
first_unknown ids [] = none
first_unknown ids ((task, deps) ∷ rest) =
    or_else (first_unknown_dep ids task deps) (first_unknown ids rest)

-- in_degree[k] += 1
pub increment : (String → ℕ) → String → String → ℕ
increment f k a = if str_eq k a then suc (f a) else f a

-- in_degree[k] -= 1
pub decrement : (String → ℕ) → String → String → ℕ
decrement f k a = if str_eq k a then f a - 1 else f a

-- dependents[k].append(v)
pub append_at : (String → List String) → String → String → String → List String
append_at f k v a = if str_eq k a then f a ++ v ∷ [] else f a

pub record Tables : Type 0 where
  pub in_degree : String → ℕ
  pub dependents : String → List String

count_deps : String → List String → Tables → Tables
count_deps task [] t = t
count_deps task (dep ∷ deps) t = count_deps task deps (record {
  in_degree = increment t.in_degree task;
  dependents = append_at t.dependents dep task;
})

count_all : Adjacency → Tables → Tables
count_all [] t = t
count_all ((task, deps) ∷ rest) t = count_all rest (count_deps task deps t)

pub tables : Adjacency → Tables
tables adj = count_all adj (record { in_degree = λ _. 0; dependents = λ _. [] })

-- The inner loop over `dependents[node]`: the new in-degrees and queue.
pub relax : List String → (String → ℕ) → List String → (String → ℕ) × List String
relax [] deg queue = (deg, queue)
relax (d ∷ ds) deg queue =
    let deg' = decrement deg d in relax ds deg' (if deg' d == 0 then queue ++ d ∷ [] else queue)

-- The outer loop: how many nodes it takes off the queue, or `none` if the rounds given ran out.
pub drain : ℕ → (String → List String) → (String → ℕ) → List String → ℕ → Option ℕ
drain zero dependents deg queue processed = none
drain (suc rounds) dependents deg [] processed = some processed
drain (suc rounds) dependents deg (node ∷ queue) processed =
    let (deg', queue') = relax (dependents node) deg queue in
    drain rounds dependents deg' queue' (suc processed)

pub kahn : List String → Adjacency → Option ℕ
kahn ids adj =
    let t = tables adj in
    drain (suc (length ids)) t.dependents t.in_degree (keep (λ a. t.in_degree a == 0) ids) 0

verdict : Option ℕ → ℕ → Option GraphError
verdict none n = some out_of_rounds
verdict (some processed) n = if processed == n then none else some cycle_detected

-- `none` if the method returns, or the error that it raises.
pub validate : DependencyGraph → Option GraphError
unfolding first_unknown verdict
validate g =
    or_else (first_unknown g.id_set g.depends_on)
      (verdict (kahn g.id_set g.depends_on) (length g.task_ids))

-- What a run of the method on concrete input computes with.
unfoldable pub validate_parts : Unit {0}
unfolding contains keep first_unknown_dep or_else first_unknown increment decrement append_at
    count_deps count_all tables relax drain kahn verdict validate
validate_parts = tt
