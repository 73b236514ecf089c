-- ===== src/Meta/Scheduler/Skips.antt =====
-- Which tasks `run` skips, without fail-fast and without rewiring.
use lula.Prelude.{
  String, ◌≡◌, ◌≢◌, ◌∙◌, ap, sym, inl, inr, refl, Bool, true, false, ◌&&◌, none, some, List, [],
  ◌∷◌, arith, str_eq, eq_iff, keep, all, Bool-cases, str_eq_self,
}
use mathlib.Core.Path.{subst}
use lula.Prelude.Members.{contains}
use lula.Meta.Task.{pending, success, skipped, SubAgentTask, DependencyGraph, depends}
use lula.Meta.Edges.{deps_at, built, new_graph, ids_of}
use lula.Meta.Edges.Adjacent.{depends-eq-contains}
use lula.Meta.Edges.Change.{keys-IsDistinct}
use lula.Meta.Scheduler.{
  is_pending, Stage, waiting, cancelling, finished, Config, State, status_of, stage_of, ready_tasks,
  launch, guard_end, turn, process_all, done_ids, any_failed, wake, conclude, acquire, finish, Step,
  acquires, ends, drops, wakes, concludes, start, Reach, here, next,
}
use lula.Meta.Scheduler.Tables.{status_of-skip_if}
use lula.Meta.Scheduler.Invariant.{Inv}
use lula.Meta.Scheduler.Turns.{ready-Inv, processed-Inv}
use lula.Meta.Scheduler.Runs.{AllPending, Reach-Inv, at_phase, begin, begin-Inv, finish_phase}
use lula.Meta.Scheduler.Rewiring.{
  Reach-static, new_graph-IsValid, process_all-Same, launch_completed, launch_tasks,
}

begun-launch :
    (i : String) (ts : List SubAgentTask) (s : State)
    → contains i s.started ≡ true
    → contains i (launch ts s).started ≡ true
unfolding launch contains
begun-launch i [] s m = m
begun-launch i (t ∷ ts) s m = elim (Bool-cases (contains t.task_id s.started)) [
  | inl e ↦ rw (e, launch) (begun-launch i ts s m)
  | inr e ↦ rw (e, launch) (begun-launch i ts _ (ground arith))
]

launched_all :
    (i : String) (ts : List SubAgentTask) (s : State)
    → contains i (ids_of ts) ≡ true
    → contains i (launch ts s).started ≡ true
unfolding launch contains
launched_all i [] s m = cc
launched_all i (t ∷ ts) s m = elim (Bool-cases (contains t.task_id s.started)) [
  | inl e ↦
      rw (e, launch)
        (elim (Bool-cases (str_eq t.task_id i)) [
          | inl b ↦ begun-launch i ts s (ground (arith, eq_iff t.task_id i))
          | inr b ↦ launched_all i ts s (ground arith)
        ])
  | inr e ↦
      rw (e, launch)
        (elim (Bool-cases (str_eq t.task_id i)) [
          | inl b ↦ begun-launch i ts _ (ground arith)
          | inr b ↦ launched_all i ts _ (ground arith)
        ])
]

contains-ids_of-keep :
    (p : SubAgentTask → Bool) (q : String → Bool) (i : String) (tasks : List SubAgentTask)
    → ((t : SubAgentTask) → p t ≡ (is_pending t.status && q t.task_id))
    → status_of i tasks ≡ some pending
    → q i ≡ true
    → contains i (ids_of (keep p tasks)) ≡ true
unfolding keep contains status_of
contains-ids_of-keep p q i [] h e m = cc
contains-ids_of-keep p q i (t ∷ tasks) h e m =
    ground (arith, contains-ids_of-keep p q i tasks h, h t, eq_iff t.task_id i)

all-false :
    (p : String → Bool) (xs : List String)
    → all p xs ≡ false
    → (d : String) × (contains d xs ≡ true) × (p d ≡ false)
unfolding all contains
all-false p [] h = cc
all-false p (x ∷ xs) h = elim (Bool-cases (p x)) [
  | inl e ↦ let (d, m, n) = all-false p xs (ground arith) in (d, ground arith, n)
  | inr e ↦ (x, ground (arith, str_eq_self x), e)
]

-- A task that did not run, and a dependency of it that did not succeed.
abbrev Blocked : DependencyGraph → State → String → Type 0
Blocked g s i =
    (d : String) × (contains d (deps_at g.depends_on i) ≡ true)
    × (status_of d s.tasks ≢ some success)

abbrev Explained : DependencyGraph → State → Type 0
Explained g s =
    (s.phase ≢ cancelling)
    × (s.phase ≡ finished → (i : String) → status_of i s.tasks ≡ some skipped → Blocked g s i)

module _ (c : Config) (g : DependencyGraph) (s : State) (same : s.dag ≡ g)
    (inv : Inv c waiting s) where
  abbrev s' : State
  s' = launch (ready_tasks s.tasks s.dag s.completed) s

  inv' : Inv c waiting s'
  inv' = ready-Inv c s inv

  no_stage : (k : String) → s'.live ≡ [] → stage_of k s'.live ≡ none
  unfolding stage_of
  no_stage k h = ap (stage_of k) h

  unbegun :
      (k : String)
      → s'.live ≡ []
      → status_of k s'.tasks ≡ some pending
      → contains k s'.started ≢ true
  unbegun k h p b = cc ((inv'.at k).pending_queued p b, no_stage k h)

  now_begun :
      (k : String)
      → status_of k s'.tasks ≡ some pending
      → all (λ d. contains d s.completed) (deps_at s.dag.depends_on k) ≡ true
      → contains k s'.started ≡ true
  unfolding ready_tasks
  now_begun k p b = launched_all k (ready_tasks s.tasks s.dag s.completed) s (
      contains-ids_of-keep _ (λ x. all (λ d. contains d s.completed) (deps_at s.dag.depends_on x)) k
        s.tasks (λ t. refl) (rw (launch_tasks (ready_tasks s.tasks s.dag s.completed) s) at p) b)

  unfinished :
      (d : String)
      → s'.live ≡ []
      → contains d s.completed ≡ false
      → status_of d s'.tasks ≢ some success
  unfinished d h n p =
      let same_done : contains d s'.completed ≡ contains d s.completed =
        ap (contains d) (launch_completed (ready_tasks s.tasks s.dag s.completed) s) in
      ground (arith, (inv'.at d).success_done p, no_stage d h)

  left_over : (i : String) → s'.live ≡ [] → status_of i s'.tasks ≡ some pending → Blocked g s' i
  left_over i empty e =
      elim (Bool-cases (all (λ d. contains d s.completed) (deps_at s.dag.depends_on i))) [
        | inl b ↦ absurd (unbegun i empty e (now_begun i e b))
        | inr b ↦
            let (d, m, n) =
              all-false (λ d. contains d s.completed) (deps_at s.dag.depends_on i) b in
            (
              d,
              subst (λ h. contains d (deps_at h.depends_on i) ≡ true) same m,
              unfinished d empty n,
            )
      ]

  guard_end-Explained : (l : List (String × Stage)) → s'.live ≡ l → Explained g (guard_end s' l)
  unfolding guard_end
  guard_end-Explained [] h = (
    λ p. cc,
    λ p i e.
        let was : status_of i s'.tasks ≡ some pending =
          ground (
            arith,
            status_of-skip_if is_pending i s'.tasks,
            (inv'.at i).waiting_unskipped refl,
            e,
          ) in
        let (d, m, n) = left_over i h was in
        (d, m, λ q. n (ground (arith, status_of-skip_if is_pending d s'.tasks, q))),
  )
  guard_end-Explained (x ∷ l) h = (λ p. cc, λ p. cc)

  turn-Explained : Explained g (turn s)
  unfolding turn
  turn-Explained = guard_end-Explained s'.live refl

Step-Explained :
    {c : Config} {s t : State} (g : DependencyGraph)
    → c.fail_fast ≡ false
    → s.dag ≡ g
    → Step c s t
    → Inv c s.phase s
    → Explained g s
    → Explained g t
unfolding acquire finish wake conclude
Step-Explained g ff same (acquires s i p q free) inv h = (h.0, λ f. cc)
Step-Explained {c} g ff same (ends s i e a) inv h =
    let keeps = finish_phase c i e s in
    (
      λ p. h.0 (sym keeps ∙ p),
      λ f. absurd (((inv.at i).finished_settled (sym keeps ∙ f)).1 ((inv.at i).active_running a)),
    )
Step-Explained g ff same (drops s i p q) inv h = absurd (h.0 p)
Step-Explained {c} g ff same (wakes s p i e) inv h =
    let is = done_ids s.live in
    let s' = process_all is s in
    let slow : (c.fail_fast && any_failed is s'.tasks) ≡ false = ground (arith, ff) in
    rw (slow, wake)
      (turn-Explained c g s' ((process_all-Same is s).graph ∙ same)
        (processed-Inv c s (at_phase p inv)))
Step-Explained g ff same (concludes s p e) inv h = absurd (h.0 p)

Reach-Explained :
    (c : Config) (tasks : List SubAgentTask) (dag : DependencyGraph) (s : State)
    → AllPending tasks
    → c.fail_fast ≡ false
    → c.dynamic_rewiring ≡ false
    → Reach c (start tasks dag) s
    → Explained dag s
unfolding start
Reach-Explained c tasks dag s fresh ff static here =
    turn-Explained c dag (begin tasks dag) refl (begin-Inv c tasks dag fresh)
Reach-Explained c tasks dag s fresh ff static (next {t = t} r st) =
    Step-Explained dag ff (Reach-static c tasks dag t static r) st (Reach-Inv tasks dag fresh r)
      (Reach-Explained c tasks dag t fresh ff static r)

-- Without fail-fast and without rewiring, for tasks that all begin pending and of which the
-- constructor built a graph: a task is skipped at the end of `run` only if some task that it depends
-- on did not succeed.
pub skipped-Blocked :
    (c : Config) (tasks : List SubAgentTask) (dag : DependencyGraph) (s : State) (i : String)
    → new_graph tasks ≡ built dag
    → AllPending tasks
    → c.fail_fast ≡ false
    → c.dynamic_rewiring ≡ false
    → Reach c (start tasks dag) s
    → s.phase ≡ finished
    → status_of i s.tasks ≡ some skipped
    → (d : String) × (depends dag.depends_on i d ≡ true) × (status_of d s.tasks ≢ some success)
skipped-Blocked c tasks dag s i b fresh ff static r f e =
    let (d, m, n) = (Reach-Explained c tasks dag s fresh ff static r).1 f i e in
    (
      d,
      rw
          (depends-eq-contains dag.depends_on i d
            (keys-IsDistinct dag (new_graph-IsValid tasks dag b).formed))
          m,
      n,
    )
