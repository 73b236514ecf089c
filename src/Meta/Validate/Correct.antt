-- ===== src/Meta/Validate/Correct.antt =====
-- What _validate_no_cycles decides.
use lula.Prelude.{
  ℕ, zero, suc, ◌≤◌, ◌<◌, String, ◌≡◌, refl, true, false, Option, none, some, List, [], ◌∷◌, eq_iff,
  arith, length, inl, inr, Bool-cases, ◌==◌, count_if, keep, str_eq_self,
}
use mathlib.Core.List.{append-nil}
use mathlib.Core.Logic.{◌≢◌}
use native.Mathlib.Decide.{ℕ_discrete}
use lula.Prelude.Members.{
  contains, contains-keep, IsDistinct-keep, IsDistinct, IsSubset, IsDistinct-length-le,
  IsDistinct-covers,
}
use lula.Meta.Task.{
  Adjacency, depends, DependencyGraph, GraphError, IsWellFormed, IsDag, keys_known,
  unknown_dependency, cycle_detected, duplicate_ids, unknown_task, out_of_rounds,
}
use lula.Meta.Validate.{first_unknown_dep, or_else, first_unknown, tables, kahn, verdict, validate}
use lula.Meta.Validate.Counts.{open_count, open_count-closed, in_degree-tables, dependents-tables}
use lula.Meta.Validate.Rounds.{Inv, Ranked, Finished, drain-Finished}

-- What each answer of the method says of the graph.
abbrev pub Explains : List String → Adjacency → Option GraphError → Type 0
Explains ids adj none = IsDag ids adj
Explains ids adj (some (unknown_dependency t d)) =
    (depends adj t d ≡ true) × (contains d ids ≡ false)
Explains ids adj (some cycle_detected) =
    ((t d : String) → depends adj t d ≡ true → contains d ids ≡ true) × (¬ IsDag ids adj)
Explains ids adj (some duplicate_ids) = ⊥
Explains ids adj (some (unknown_task t)) = ⊥
Explains ids adj (some out_of_rounds) = ⊥

-- The first loop: either it finds a dependency that is no task, or there is none.
abbrev Unknown : List String → Adjacency → Option GraphError → Type 0
Unknown ids adj none = (t d : String) → depends adj t d ≡ true → contains d ids ≡ true
Unknown ids adj (some e) =
    (t : String) × (d : String) × (e ≡ unknown_dependency t d)
    × (depends adj t d ≡ true)
    × (contains d ids ≡ false)

abbrev UnknownDep : List String → String → List String → Option GraphError → Type 0
UnknownDep ids task deps none = (d : String) → contains d deps ≡ true → contains d ids ≡ true
UnknownDep ids task deps (some e) =
    (d : String) × (e ≡ unknown_dependency task d)
    × (contains d deps ≡ true)
    × (contains d ids ≡ false)

UnknownDep-cons :
    (ids : List String) (task x : String) (deps : List String) (r : Option GraphError)
    → contains x ids ≡ true
    → UnknownDep ids task deps r
    → UnknownDep ids task (x ∷ deps) r
unfolding contains
UnknownDep-cons ids task x deps none k h = λ d m. ground (arith, h d, eq_iff x d)
UnknownDep-cons ids task x deps (some e) k (d, p, m, u) = (d, p, ground arith, u)

first_unknown_dep_lem :
    (ids : List String) (task : String) (deps : List String)
    → UnknownDep ids task deps (first_unknown_dep ids task deps)
unfolding first_unknown_dep contains
first_unknown_dep_lem ids task [] = λ d m. cc
first_unknown_dep_lem ids task (x ∷ deps) = elim (Bool-cases (contains x ids)) [
  | inl e ↦ rw e (
      UnknownDep-cons ids task x deps (first_unknown_dep ids task deps) e
        (first_unknown_dep_lem ids task deps))
  | inr e ↦ rw e (x, refl, ground (arith, str_eq_self x), e)
]

Unknown-cons :
    (ids : List String) (k : String) (deps : List String) (rest : Adjacency)
    (r s : Option GraphError)
    → UnknownDep ids k deps r
    → Unknown ids rest s
    → Unknown ids ((k, deps) ∷ rest) (or_else r s)
unfolding or_else depends
Unknown-cons ids k deps rest none none h g = λ t d m. ground (arith, h d, g t d)
Unknown-cons ids k deps rest none (some e) h (t, d, p, m, u) = (t, d, p, ground arith, u)
Unknown-cons ids k deps rest (some e) s (d, p, m, u) g = (k, d, p, ground (arith, str_eq_self k), u)

first_unknown_lem : (ids : List String) (adj : Adjacency) → Unknown ids adj (first_unknown ids adj)
unfolding first_unknown depends
first_unknown_lem ids [] = λ t d m. cc
first_unknown_lem ids ((k, deps) ∷ rest) =
    Unknown-cons ids k deps rest (first_unknown_dep ids k deps) (first_unknown ids rest)
      (first_unknown_dep_lem ids k deps) (first_unknown_lem ids rest)

module _ (ids : List String) (adj : Adjacency) (distinct : IsDistinct ids)
    (keys : (t d : String) → depends adj t d ≡ true → contains t ids ≡ true) where
  start-Inv :
      Inv ids adj [] (keep (λ a. (tables adj).in_degree a == 0) ids) (tables adj).in_degree []
  unfolding count_if
  start-Inv = record {
    distinct = IsDistinct-keep (λ a. (tables adj).in_degree a == 0) ids distinct;
    within =
        λ a m. ground (arith, contains-keep (λ (b : String). (tables adj).in_degree b == 0) a ids);
    degree = λ a. omega (arith, in_degree-tables adj a);
    zero_in = λ a k z.
        ground (arith, contains-keep (λ (b : String). (tables adj).in_degree b == 0) a ids);
    in_zero =
        λ a m. ground (arith, contains-keep (λ (b : String). (tables adj).in_degree b == 0) a ids);
  }

  start-Ranked : Ranked ids adj []
  unfolding contains
  start-Ranked = record { rank = λ a. 0; below = λ a m. cc; deps_done = λ a d m e. cc }

  kahn-Finished : Finished ids adj (tables adj).dependents (dependents-tables adj) (kahn ids adj)
  unfolding kahn
  kahn-Finished =
      drain-Finished ids adj (tables adj).dependents (dependents-tables adj) keys (suc (length ids))
        [] (keep (λ a. (tables adj).in_degree a == 0) ids) (tables adj).in_degree (omega arith)
        start-Inv start-Ranked

  abbrev done : List String
  done = kahn-Finished.done

  done_within : IsSubset done ids
  done_within a m = kahn-Finished.inv.within a (rw append-nil m)

  done-IsDistinct : IsDistinct done
  done-IsDistinct = rw append-nil at kahn-Finished.inv.distinct

  -- All ids are taken off: the order in which they were is a ranking.
  all_done-IsDag :
      ((t d : String) → depends adj t d ≡ true → contains d ids ≡ true)
      → length ids ≤ length done
      → IsDag ids adj
  all_done-IsDag closed all =
      let covers = IsDistinct-covers done ids done-IsDistinct done_within all in
      record {
        closed = closed;
        rank = kahn-Finished.ranked.rank;
        descends = λ t d e. (kahn-Finished.ranked.deps_done t d (covers t (keys t d e)) e).1;
      }

  -- In a graph with a ranking every id is taken off, the lowest first.
  done_of_rank :
      (dag : IsDag ids adj) (n : ℕ) (a : String)
      → contains a ids ≡ true
      → dag.rank a < n
      → contains a done ≡ true
  unfolding count_if
  done_of_rank dag zero a m h = elim h [ ]
  done_of_rank dag (suc n) a m h =
      let deps = λ (d : String) (e : depends adj a d ≡ true).
        done_of_rank dag n d (dag.closed a d e) (omega (arith, dag.descends a d e)) in
      let none_open : open_count done a adj ≡ 0 = open_count-closed done a adj deps in
      let found =
        kahn-Finished.inv.zero_in a m (omega (arith, kahn-Finished.inv.degree a, none_open)) in
      rw append-nil at found

  verdict_all :
      (size : ℕ) → length ids ≡ size → length done ≡ size → verdict (kahn ids adj) size ≡ none
  unfolding verdict
  verdict_all size e f = rw (kahn-Finished.result_is, verdict) (ground arith)

  verdict-some : (size : ℕ) → length done ≢ size → verdict (kahn ids adj) size ≡ some cycle_detected
  unfolding verdict
  verdict-some size f = rw (kahn-Finished.result_is, verdict) (ground arith)

  verdict-Explains :
      (size : ℕ)
      → length ids ≡ size
      → ((t d : String) → depends adj t d ≡ true → contains d ids ≡ true)
      → Explains ids adj (verdict (kahn ids adj) size)
  verdict-Explains size e closed = elim (ℕ_discrete (length done) size) [
    | yes all ↦ rw (verdict_all size e all) (all_done-IsDag closed (omega arith))
    | no some_left ↦ rw (verdict-some size some_left) (
      closed,
      λ dag. some_left (
          omega (
            arith,
            IsDistinct-length-le done ids done-IsDistinct done_within,
            IsDistinct-length-le ids done distinct
                (λ a m. done_of_rank dag (suc (dag.rank a)) a m (omega arith)),
          )),
    )
  ]

or_else-Explains :
    (ids : List String) (adj : Adjacency) (r s : Option GraphError)
    → Unknown ids adj r
    → (((t d : String) → depends adj t d ≡ true → contains d ids ≡ true) → Explains ids adj s)
    → Explains ids adj (or_else r s)
unfolding or_else
or_else-Explains ids adj none s h k = k h
or_else-Explains ids adj (some e) s (t, d, p, m, u) k = rw p (m, u)

-- On a well-formed graph the method returns exactly if every dependency is a task of the graph and
-- some rank falls along every edge. It raises the error about an unknown dependency only for a
-- dependency that some task lists and that is no task, and the error about a cycle only where all
-- dependencies are known and no rank falls along every edge. It raises no other error, and the
-- bound on the rounds of its `while` loop is never reached.
pub validate-Explains :
    (g : DependencyGraph) → IsWellFormed g → Explains g.id_set g.depends_on (validate g)
unfolding validate
validate-Explains g w =
    or_else-Explains g.id_set g.depends_on (first_unknown g.id_set g.depends_on)
      (verdict (kahn g.id_set g.depends_on) (length g.task_ids))
      (first_unknown_lem g.id_set g.depends_on)
      (verdict-Explains g.id_set g.depends_on w.ids_distinct (keys_known g w) (length g.task_ids)
        w.size)
