-- ===== src/Meta/Edges.antt =====
-- DependencyGraph.__init__, add_edge, remove_edge and clone, and the scheduler's
-- _maybe_apply_patch (py/src/lg_orch/meta_graph.py). A method that mutates the graph returns the
-- new graph, beside the error that it raises. `clone` copies the edges, and graphs are values here:
-- the clone of `g` is `g`.
pub mod Adjacent
pub mod Build
pub mod Change
pub mod Listings
pub mod Patch
use lula.Prelude.{
  String, Bool, true, false, not, Option, none, some, List, [], ◌∷◌, ◌++◌, str_eq, ◌==◌,
  if◌then◌else◌, length, map,
}
use lula.Prelude.Members.{contains, remove_first, set_of}
use lula.Meta.Task.{
  SubAgentTask, DependencyPatch, Adjacency, DependencyGraph, GraphError, duplicate_ids,
  unknown_task, deps_of?,
}
use lula.Meta.Validate.{validate, validate_parts}

pub data Built : Type 0 where
  built : DependencyGraph → Built
  refused : GraphError → Built

abbrev pub ids_of : List SubAgentTask → List String
ids_of tasks = map (λ t. t.task_id) tasks

abbrev pub adjacency_of : List SubAgentTask → Adjacency
adjacency_of tasks = map (λ t. (t.task_id, t.depends_on)) tasks

abbrev pub graph_of : List SubAgentTask → DependencyGraph
graph_of tasks = record {
  task_ids = ids_of tasks;
  id_set = set_of (ids_of tasks);
  depends_on = adjacency_of tasks;
}

or_refused : DependencyGraph → Option GraphError → Built
or_refused g none = built g
or_refused g (some e) = refused e

-- The constructor.
pub new_graph : List SubAgentTask → Built
unfolding or_refused
new_graph tasks =
    if length (ids_of tasks) == length (set_of (ids_of tasks))
    then or_refused (graph_of tasks) (validate (graph_of tasks))
    else refused duplicate_ids

-- `_depends_on[t]`, where the key is known to be there.
abbrev pub listed : Option (List String) → List String
listed none = []
listed (some deps) = deps

pub deps_at : Adjacency → String → List String
deps_at adj t = listed (deps_of? adj t)

-- Rewrites the list that `_depends_on[t]` holds.
pub update : (List String → List String) → String → Adjacency → Adjacency
update f t [] = []
update f t ((k, deps) ∷ rest) =
    if str_eq k t then (k, f deps) ∷ rest else (k, deps) ∷ update f t rest

pub with_edge : DependencyGraph → String → String → DependencyGraph
with_edge g from to = record g { depends_on = update (λ deps. deps ++ from ∷ []) to g.depends_on }

-- The `except` of add_edge: on an error the edge is taken off again.
roll_back :
    DependencyGraph → String → String → Option GraphError → DependencyGraph × Option GraphError
roll_back g from to none = (g, none)
roll_back g from to (some e) =
    (record g { depends_on = update (remove_first from) to g.depends_on }, some e)

pub add_edge : DependencyGraph → String → String → DependencyGraph × Option GraphError
unfolding roll_back with_edge
add_edge g from to =
    if not (contains from g.id_set)
    then (g, some (unknown_task from))
    else if not (contains to g.id_set)
    then (g, some (unknown_task to))
    else if contains from (deps_at g.depends_on to)
    then (g, none)
    else roll_back (with_edge g from to) from to (validate (with_edge g from to))

pub remove_listed : DependencyGraph → String → String → Option (List String) → DependencyGraph
remove_listed g from to none = g
remove_listed g from to (some deps) =
    if contains from deps
    then record g { depends_on = update (remove_first from) to g.depends_on }
    else g

pub remove_edge : DependencyGraph → String → String → DependencyGraph
unfolding remove_listed
remove_edge g from to = remove_listed g from to (deps_of? g.depends_on to)

-- The two loops of _maybe_apply_patch. The first error ends the second.
pub remove_all : DependencyGraph → List (String × String) → DependencyGraph
remove_all g [] = g
remove_all g ((from, to) ∷ rest) = remove_all (remove_edge g from to) rest

abbrev or_next :
    DependencyGraph × Option GraphError
    → (DependencyGraph → DependencyGraph × Option GraphError)
    → DependencyGraph × Option GraphError
or_next (g, none) k = k g
or_next (g, some e) k = (g, some e)

pub add_all : DependencyGraph → List (String × String) → DependencyGraph × Option GraphError
add_all g [] = (g, none)
add_all g ((from, to) ∷ rest) = or_next (add_edge g from to) (λ g'. add_all g' rest)

-- What `result.get("dependency_patch")` may be.
pub data RawPatch : Type 0 where
  absent : RawPatch
  wrong_type : RawPatch
  patch : DependencyPatch → RawPatch

abbrev swap_in : DependencyGraph → DependencyGraph × Option GraphError → DependencyGraph
swap_in live (candidate, none) = candidate
swap_in live (candidate, some e) = live

pub apply_patch : DependencyGraph → DependencyPatch → DependencyGraph
apply_patch live p = swap_in live (add_all (remove_all live p.remove_edges) p.add_edges)

maybe_raw : DependencyGraph → RawPatch → DependencyGraph
maybe_raw live absent = live
maybe_raw live wrong_type = live
maybe_raw live (patch p) = apply_patch live p

-- The graph that is live after a task returned `raw`; `self._dag` is set while `run` runs.
unfoldable pub maybe_apply_patch : Bool → DependencyGraph → RawPatch → DependencyGraph
unfolding maybe_raw
maybe_apply_patch dynamic_rewiring live raw =
    if not dynamic_rewiring then live else maybe_raw live raw

-- What a run of these methods on concrete input computes with.
unfoldable pub edges_parts : Unit {0}
unfolding validate_parts set_of remove_first deps_of? or_refused new_graph deps_at update with_edge
    roll_back add_edge remove_listed remove_edge remove_all add_all apply_patch maybe_raw
    maybe_apply_patch
edges_parts = tt
