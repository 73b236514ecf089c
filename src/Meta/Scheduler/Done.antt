-- ===== src/Meta/Scheduler/Done.antt =====
-- The two queries of the graph about pending tasks.
use lula.Prelude.{String, ◌≡◌, refl, sym, true, false, List, [], ◌∷◌, arith, keep, all, any}
use lula.Prelude.Members.{contains}
use lula.Meta.Task.{SubAgentTask, DependencyGraph}
use lula.Meta.Edges.{deps_at}
use lula.Meta.Scheduler.{ready_tasks, all_done}

blocked-all :
    (completed failed_ids ds : List String)
    → ((i : String) → contains i failed_ids ≡ true → contains i completed ≡ false)
    → any (λ d. contains d failed_ids) ds ≡ true
    → all (λ d. contains d completed) ds ≡ false
unfolding any all
blocked-all completed failed_ids [] h b = sym b
blocked-all completed failed_ids (d ∷ ds) h b =
    ground (arith, h d, blocked-all completed failed_ids ds h)

-- Where no id has both completed and failed: if all_done says that no pending task could still be
-- launched, ready_tasks returns none.
pub all_done-ready_tasks :
    (tasks : List SubAgentTask) (dag : DependencyGraph) (completed failed_ids : List String)
    → ((i : String) → contains i failed_ids ≡ true → contains i completed ≡ false)
    → all_done tasks dag failed_ids ≡ true
    → ready_tasks tasks dag completed ≡ []
unfolding all_done ready_tasks all keep
all_done-ready_tasks [] dag completed failed_ids h d = refl
all_done-ready_tasks (t ∷ ts) dag completed failed_ids h d = ground (
  arith,
  all_done-ready_tasks ts dag completed failed_ids h,
  blocked-all completed failed_ids (deps_at dag.depends_on t.task_id) h,
)
