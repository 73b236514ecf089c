-- ===== src/Meta/Scheduler/Runs.antt =====
-- The reachable states of the scheduler.
use lula.Prelude.{
  suc, ◌+◌, String, ◌≡◌, ◌≢◌, ◌⊎◌, inl, refl, sym, ap, ◌∙◌, true, false, Option, none, some, List,
  [], ◌∷◌, arith, eq_iff, length, count_if, str_eq_self,
}
use mathlib.Core.Path.{subst}
use lula.Prelude.Members.{contains, IsDistinct}
use lula.Meta.Task.{TaskStatus, pending, running, SubAgentTask, DependencyGraph}
use lula.Meta.Edges.{ids_of, built, new_graph}
use lula.Meta.Scheduler.{
  is_success, is_failed, is_skipped, Phase, waiting, finished, Config, State, status_of, stage_of,
  Step, acquires, ends, drops, wakes, concludes, start, Reach, here, next, acquire, finish,
  conclude, Ending, returned, raised, aborted, totals,
}
use lula.Meta.Scheduler.Invariant.{Local, Inv, acquire-Inv, drop-Inv, finish-Inv}
use lula.Meta.Scheduler.Rewiring.{Reach-ids, new_graph-IsDistinct}
use lula.Meta.Scheduler.Turns.{turn-Inv, wake-Inv, conclude-Inv}

-- The tasks as their constructor leaves them.
abbrev pub AllPending : List SubAgentTask → Type 0
AllPending [] = Unit {0}
AllPending (t ∷ ts) = (t.status ≡ pending) × AllPending ts

AllPending-status_of :
    (ts : List SubAgentTask) (i : String)
    → AllPending ts
    → (status_of i ts ≡ none) ⊎ (status_of i ts ≡ some pending)
unfolding status_of
AllPending-status_of [] i h = inl refl
AllPending-status_of (t ∷ ts) i h = ground (arith, AllPending-status_of ts i h.1, h.0)

fresh-Local :
    (st : Option TaskStatus) → (st ≡ none) ⊎ (st ≡ some pending) → Local false false st none waiting
fresh-Local st h = ground arith

-- The state above the loop.
abbrev pub begin : List SubAgentTask → DependencyGraph → State
begin tasks dag = record {
  tasks = tasks;
  dag = dag;
  completed = [];
  failed_ids = [];
  started = [];
  live = [];
  phase = waiting;
}

pub begin-Inv :
    (c : Config) (tasks : List SubAgentTask) (dag : DependencyGraph)
    → AllPending tasks
    → Inv c waiting (begin tasks dag)
unfolding count_if contains stage_of
begin-Inv c tasks dag h = record {
  room = omega arith;
  distinct = tt;
  at = λ i. fresh-Local (status_of i tasks) (AllPending-status_of tasks i h);
}

start-Inv :
    (c : Config) (tasks : List SubAgentTask) (dag : DependencyGraph)
    → AllPending tasks
    → Inv c (start tasks dag).phase (start tasks dag)
unfolding start
start-Inv c tasks dag h = turn-Inv c (begin tasks dag) (begin-Inv c tasks dag h)

pub finish_phase :
    (c : Config) (i : String) (e : Ending) (s : State) → (finish c i e s).phase ≡ s.phase
unfolding finish
finish_phase c i (returned raw) s = refl
finish_phase c i (raised m) s = refl
finish_phase c i aborted s = refl

pub at_phase : {c : Config} {s : State} {p q : Phase} → p ≡ q → Inv c p s → Inv c q s
at_phase {c} {s} e inv = subst (λ p. Inv c p s) e inv

Step-Inv : {c : Config} {s t : State} → Step c s t → Inv c s.phase s → Inv c t.phase t
unfolding acquire conclude
Step-Inv {c} (acquires s i p q free) inv =
    at_phase (sym p) (acquire-Inv c s i q free (at_phase p inv))
Step-Inv {c} (ends s i e a) inv =
    at_phase (sym (finish_phase c i e s)) (finish-Inv c s i e s.phase a inv)
Step-Inv {c} (drops s i p q) inv = at_phase (sym p) (drop-Inv c s i q (at_phase p inv))
Step-Inv {c} (wakes s p i e) inv = wake-Inv c s (at_phase p inv)
Step-Inv {c} (concludes s p e) inv = conclude-Inv c s (at_phase p inv)

pub Reach-Inv :
    {c : Config} (tasks : List SubAgentTask) (dag : DependencyGraph) {s : State}
    → AllPending tasks
    → Reach c (start tasks dag) s
    → Inv c s.phase s
Reach-Inv {c} tasks dag h here = start-Inv c tasks dag h
Reach-Inv tasks dag h (next r st) = Step-Inv st (Reach-Inv tasks dag h r)

length-of_ids : (ts us : List SubAgentTask) → ids_of ts ≡ ids_of us → length ts ≡ length us
length-of_ids ts us e = sym (length-map ts) ∙ ap length e ∙ length-map us
  where
    length-map : (vs : List SubAgentTask) → length (ids_of vs) ≡ length vs
    length-map = elim [ [] ↦ refl | v ∷ (vs → ih) ↦ ap suc ih ]

-- A status of `run`'s result.
abbrev IsSettled : TaskStatus → Type 0
IsSettled st = (st ≢ pending) × (st ≢ running)

status_of-in_ids :
    (i : String) (ts : List SubAgentTask) (st : TaskStatus)
    → status_of i ts ≡ some st
    → contains i (ids_of ts) ≡ true
unfolding status_of contains
status_of-in_ids i [] st e = cc
status_of-in_ids i (t ∷ ts) st e = ground (arith, status_of-in_ids i ts st)

settled-sum :
    (ts : List SubAgentTask)
    → IsDistinct (ids_of ts)
    → ((i : String) (st : TaskStatus) → status_of i ts ≡ some st → IsSettled st)
    → count_if (λ t. is_success t.status) ts
        + count_if (λ t. is_failed t.status) ts
        + count_if (λ t. is_skipped t.status) ts
      ≡ length ts
unfolding status_of contains count_if
settled-sum [] d h = refl
settled-sum (t ∷ ts) d h = ground (arith, h t.task_id t.status own, settled-sum ts d.1 later)
  where
    own : status_of t.task_id (t ∷ ts) ≡ some t.status
    own = ground (arith, str_eq_self t.task_id)

    later : (i : String) (st : TaskStatus) → status_of i ts ≡ some st → IsSettled st
    later i st e = h i st (ground (arith, status_of-in_ids i ts st, d.0, eq_iff t.task_id i))

-- When `run` has left its loop, every task has succeeded, failed or was skipped: for tasks that all
-- begin pending and of which the constructor built a graph, the three totals add up to the number
-- of tasks.
pub finished-totals :
    (c : Config) (tasks : List SubAgentTask) (dag : DependencyGraph) (s : State)
    → new_graph tasks ≡ built dag
    → AllPending tasks
    → Reach c (start tasks dag) s
    → s.phase ≡ finished
    → (totals s.tasks).succeeded + (totals s.tasks).failures + (totals s.tasks).skips ≡ length tasks
unfolding totals
finished-totals c tasks dag s b h r p =
    let same = Reach-ids c tasks dag s r in
    settled-sum s.tasks (rw same (new_graph-IsDistinct tasks dag b))
      (λ i st e. ground (arith, (Reach-Inv tasks dag h r).at i, e, p))
    ∙ length-of_ids s.tasks tasks same
