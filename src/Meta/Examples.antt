-- ===== src/Meta/Examples.antt =====
-- The graph and the scheduler on small inputs.
use lula.Prelude.{
  ◌+◌, String, ◌≡◌, ◌≢◌, inl, refl, true, false, none, some, List, [], ◌∷◌, arith, str_eq,
  if◌then◌else◌, ◌&&◌,
}
use lula.Prelude.Members.{contains, remove_first}
use lula.Meta.Task.{
  pending, running, success, failed, skipped, SubAgentTask, DependencyPatch, DependencyGraph,
  cycle_detected, depends, IsValid,
}
use lula.Meta.Validate.{validate}
use lula.Meta.Validate.Correct.{Explains, validate-Explains}
use lula.Meta.Edges.{
  built, refused, new_graph, deps_at, add_edge, remove_edge, apply_patch, absent, edges_parts,
}
use lula.Meta.Edges.Build.{Accounts, new_graph-Accounts}
use lula.Meta.Edges.Change.{Added, add_edge-Added, depends-remove_edge}
use lula.Meta.Edges.Patch.{Patched, apply_patch-Patched}
use lula.Meta.Scheduler.{
  finished, Config, State, status_of, acquires, ends, wakes, start, Reach, here, next, acquire,
  finish, wake, returned, raised, totals, scheduler_parts,
}
use lula.Meta.Scheduler.Runs.{finished-totals}
use lula.Meta.Scheduler.Outcome.{dependencies_first}
use lula.Meta.Scheduler.Rewiring.{Reach-IsValid, new_graph-IsValid}
use lula.Meta.Scheduler.Skips.{skipped-Blocked}

abbrev task : String → List String → SubAgentTask
task id deps = record {
  task_id = id;
  description = "";
  depends_on = deps;
  status = pending;
  error = none;
}

abbrev pair : List SubAgentTask
pair = task "a" [] ∷ task "b" ("a" ∷ []) ∷ []

abbrev pair_graph : DependencyGraph
pair_graph = record {
  task_ids = "a" ∷ "b" ∷ [];
  id_set = "a" ∷ "b" ∷ [];
  depends_on = ("a", []) ∷ ("b", "a" ∷ []) ∷ [];
}

new_graph-pair : new_graph pair ≡ built pair_graph
unfolding edges_parts
new_graph-pair = refl

new_graph_cyclic :
    new_graph (task "a" ("b" ∷ []) ∷ task "b" ("a" ∷ []) ∷ []) ≡ refused cycle_detected
unfolding edges_parts
new_graph_cyclic = refl

pair_graph-IsValid : IsValid pair_graph
pair_graph-IsValid = new_graph-IsValid pair pair_graph new_graph-pair

validate-Explains_example : Explains ("a" ∷ "b" ∷ []) pair_graph.depends_on (validate pair_graph)
validate-Explains_example = validate-Explains pair_graph pair_graph-IsValid.formed

new_graph-Accounts_example : Accounts pair (new_graph pair)
new_graph-Accounts_example = new_graph-Accounts pair

add_edge-Added_example : Added pair_graph "b" "a" (add_edge pair_graph "b" "a")
add_edge-Added_example = add_edge-Added pair_graph "b" "a" pair_graph-IsValid

add_edge_cyclic : add_edge pair_graph "b" "a" ≡ (pair_graph, some cycle_detected)
unfolding edges_parts
add_edge_cyclic = refl

-- A dependency that is listed twice.
abbrev doubled : List SubAgentTask
doubled = task "a" [] ∷ task "b" ("a" ∷ "a" ∷ []) ∷ []

abbrev doubled_graph : DependencyGraph
doubled_graph = record {
  task_ids = "a" ∷ "b" ∷ [];
  id_set = "a" ∷ "b" ∷ [];
  depends_on = ("a", []) ∷ ("b", "a" ∷ "a" ∷ []) ∷ [];
}

new_graph-doubled : new_graph doubled ≡ built doubled_graph
unfolding edges_parts
new_graph-doubled = refl

depends-remove_edge_example : depends (remove_edge doubled_graph "a" "b").depends_on "b" "a" ≡ (
    if str_eq "b" "b" && str_eq "a" "a"
    then contains "a" (remove_first "a" (deps_at doubled_graph.depends_on "b"))
    else depends doubled_graph.depends_on "b" "a")
depends-remove_edge_example =
    depends-remove_edge doubled_graph "a" "b" "b" "a"
      (new_graph-IsValid doubled doubled_graph new_graph-doubled).formed

abbrev turned : DependencyPatch
turned = record { add_edges = ("b", "a") ∷ []; remove_edges = ("a", "b") ∷ [] }

apply_patch-Patched_example : Patched pair_graph turned (apply_patch pair_graph turned)
apply_patch-Patched_example = apply_patch-Patched pair_graph turned pair_graph-IsValid

apply_patch-turned : (apply_patch pair_graph turned).depends_on ≡ ("a", "b" ∷ []) ∷ ("b", []) ∷ []
unfolding edges_parts
apply_patch-turned = refl

abbrev patient : Config
patient = record { max_parallel = 1; fail_fast = false; dynamic_rewiring = false }

abbrev s0 : State
s0 = start pair pair_graph

abbrev s1 : State
s1 = acquire "a" s0

-- The first task succeeds, and the second starts.
abbrev s2 : State
s2 = finish patient "a" (returned absent) s1

abbrev s3 : State
s3 = wake patient s2

abbrev s4 : State
s4 = acquire "b" s3

Reach-s1 : Reach patient (start pair pair_graph) s1
unfolding scheduler_parts
Reach-s1 = next here (acquires s0 "a" refl refl (omega arith))

Reach-s4 : Reach patient (start pair pair_graph) s4
unfolding scheduler_parts
Reach-s4 =
    next (next (next Reach-s1 (ends s1 "a" (returned absent) refl)) (wakes s2 refl "a" refl))
      (acquires s3 "b" refl refl (omega arith))

b_running : status_of "b" s4.tasks ≡ some running
unfolding scheduler_parts
b_running = refl

dependencies_first_example : status_of "a" s4.tasks ≡ some success
unfolding scheduler_parts depends
dependencies_first_example =
    dependencies_first patient pair pair_graph new_graph-pair (refl, (refl, tt)) refl s4 "b" "a"
      running Reach-s4 b_running (inl refl) refl

Reach-IsValid_example : IsValid s4.dag
Reach-IsValid_example = Reach-IsValid patient pair pair_graph s4 new_graph-pair Reach-s4

-- The first task fails, and the second is skipped.
abbrev t2 : State
t2 = finish patient "a" (raised "boom") s1

abbrev t3 : State
t3 = wake patient t2

Reach-t3 : Reach patient (start pair pair_graph) t3
unfolding scheduler_parts
Reach-t3 = next (next Reach-s1 (ends s1 "a" (raised "boom") refl)) (wakes t2 refl "a" refl)

t3_finished : t3.phase ≡ finished
unfolding scheduler_parts
t3_finished = refl

b_skipped : status_of "b" t3.tasks ≡ some skipped
unfolding scheduler_parts
b_skipped = refl

skipped-Blocked_example :
    (d : String) × (depends pair_graph.depends_on "b" d ≡ true)
    × (status_of d t3.tasks ≢ some success)
skipped-Blocked_example =
    skipped-Blocked patient pair pair_graph t3 "b" new_graph-pair (refl, (refl, tt)) refl refl
      Reach-t3 t3_finished b_skipped

finished-totals_example :
    (totals t3.tasks).succeeded + (totals t3.tasks).failures + (totals t3.tasks).skips ≡ 2
finished-totals_example =
    finished-totals patient pair pair_graph t3 new_graph-pair (refl, (refl, tt)) Reach-t3
      t3_finished

abbrev half_failed : List SubAgentTask
half_failed = (record (task "a" []) { status = failed }) ∷ task "b" ("a" ∷ []) ∷ []
