-- ===== src/Meta/Scheduler/Turns.antt =====
-- The scheduler's own code between two awaits, against the invariant.
use lula.Prelude.{
  String, ◌≡◌, ◌≢◌, inl, inr, refl, Bool, true, false, ◌&&◌, ◌||◌, none, some, List, [], ◌∷◌, ◌++◌,
  arith, str_eq, eq_iff, str_eq-cases, Bool-cases, if◌then◌else◌, keep, count_if, str_eq_self,
}
use lula.Prelude.Members.{contains, IsDistinct, IsDistinct-snoc}
use lula.Meta.Edges.{ids_of}
use lula.Meta.Task.{failed, SubAgentTask}
use lula.Meta.Scheduler.{
  is_pending, is_running, Stage, queued, active, ended, waiting, cancelling, finished, Config,
  State, status_of, stage_of, ready_tasks, launch, guard_end, turn, mark_cancelled, is_some_running,
  is_some_success, process, process_all, done_ids, any_failed, wake, conclude,
}
use lula.Meta.Scheduler.Tables.{
  override, live_ids, status_of-assign, status_of-skip_if, stage_of-pop, stage_of-queue,
  pop-IsDistinct, live_ids-append, stage_of-none, done_ids-ended, active_count-pop-le,
  active_count-queue,
}
use lula.Meta.Scheduler.Invariant.{
  At, Inv, Local-process, Local-launch, Local-skip, Local-over, Local-conclude,
}

status_of-mark_cancelled :
    (i j : String) (ts : List SubAgentTask)
    → status_of j (mark_cancelled i ts) ≡ (
        if str_eq i j
        then (if is_some_running (status_of j ts)
            then override failed (status_of j ts)
            else status_of j ts)
        else status_of j ts)
unfolding mark_cancelled
status_of-mark_cancelled i j ts =
    ground (arith, status_of-assign i j failed (some "cancelled before completion") ts, eq_iff i j)

contains-if-cons :
    (i j : String) (b : Bool) (xs : List String)
    → contains j (if b then i ∷ xs else xs) ≡ (str_eq i j && b) || contains j xs
unfolding contains
contains-if-cons i j b xs = ground arith

module _ (c : Config) (s : State) (i : String) (over : stage_of i s.live ≡ some ended)
    (inv : Inv c waiting s) where
  process-At : (j : String) → At (process i s) waiting j
  unfolding process
  process-At j =
      rw
        (
          contains-if-cons i j (is_some_success (status_of i (mark_cancelled i s.tasks)))
              s.completed,
          status_of-mark_cancelled i j s.tasks,
          stage_of-pop i j s.live,
        )
        (elim (str_eq-cases i j) [
          | inl (e, t) ↦
              let over' = rw e at over in
              let own : status_of i (mark_cancelled i s.tasks) ≡ (
                  if is_some_running (status_of j s.tasks)
                  then override failed (status_of j s.tasks)
                  else status_of j s.tasks) =
                ground (arith, status_of-mark_cancelled i j s.tasks, e) in
              rw (t, own)
                (Local-process (contains j s.completed) (contains j s.started) (status_of j s.tasks)
                  (rw over' at (inv.at j)))
          | inr (n, t) ↦ rw t (inv.at j)
        ])

  process-Inv : Inv c waiting (process i s)
  unfolding process
  process-Inv = record {
    room = omega (arith, inv.room, active_count-pop-le i s.live);
    distinct = pop-IsDistinct i s.live inv.distinct;
    at = process-At;
  }

-- The done set holds each id once.
done_ids-IsDistinct :
    (live : List (String × Stage)) → IsDistinct (live_ids live) → IsDistinct (done_ids live)
unfolding done_ids
done_ids-IsDistinct [] d = tt
done_ids-IsDistinct ((k, ended) ∷ rest) d = (
  elim (Bool-cases (contains k (done_ids rest))) [
    | inl e ↦ cc (d.0, (done_ids-ended k rest d.1 e).1)
    | inr e ↦ e
  ],
  done_ids-IsDistinct rest d.1,
)
done_ids-IsDistinct ((k, queued) ∷ rest) d = done_ids-IsDistinct rest d.1
done_ids-IsDistinct ((k, active) ∷ rest) d = done_ids-IsDistinct rest d.1

process_all-Inv :
    (c : Config) (is : List String) (s : State)
    → IsDistinct is
    → ((i : String) → contains i is ≡ true → stage_of i s.live ≡ some ended)
    → Inv c waiting s
    → Inv c waiting (process_all is s)
unfolding process_all contains
process_all-Inv c [] s d h inv = inv
process_all-Inv c (i ∷ is) s d h inv =
    process_all-Inv c is (process i s) d.1 still
      (process-Inv c s i (h i (ground (arith, str_eq_self i))) inv)
  where
    still : (j : String) → contains j is ≡ true → stage_of j (process i s).live ≡ some ended
    still j m = unfold process in ground (arith, stage_of-pop i j s.live, h j, eq_iff i j, d.0)

-- The loop over the done set.
pub processed-Inv :
    (c : Config) (s : State) → Inv c waiting s → Inv c waiting (process_all (done_ids s.live) s)
processed-Inv c s inv =
    process_all-Inv c (done_ids s.live) s (done_ids-IsDistinct s.live inv.distinct)
      (λ i m. (done_ids-ended i s.live inv.distinct m).0) inv

abbrev Known : List SubAgentTask → List SubAgentTask → Type 0
Known ts tasks = (i : String) → contains i (ids_of ts) ≡ true → status_of i tasks ≢ none

module _ (c : Config) (s : State) (t : SubAgentTask) (known : status_of t.task_id s.tasks ≢ none)
    (new : contains t.task_id s.started ≡ false) (inv : Inv c waiting s) where
  abbrev launched : State
  launched = record s { started = t.task_id ∷ s.started; live = s.live ++ (t.task_id, queued) ∷ [] }

  not_live : stage_of t.task_id s.live ≡ none
  not_live = ground (arith, (inv.at t.task_id).live_begun)

  launched-Inv : Inv c waiting launched
  unfolding contains
  launched-Inv = record {
    room = omega (arith, inv.room, active_count-queue t.task_id s.live);
    distinct = rw (live_ids-append s.live ((t.task_id, queued) ∷ [])) (
        IsDistinct-snoc t.task_id (live_ids s.live) inv.distinct
          (stage_of-none t.task_id s.live not_live));
    at = λ j. rw (stage_of-queue t.task_id j s.live) (elim (str_eq-cases t.task_id j) [
      | inl (e, b) ↦
          let gone : stage_of j s.live ≡ none = rw e at not_live in
          let known' : status_of j s.tasks ≢ none = rw e at known in
          let new' : contains j s.started ≡ false = rw e at new in
          rw (b, gone) (Local-launch known' new' (inv.at j))
      | inr (n, b) ↦ rw (b) (inv.at j)
    ]);
  }

launch-Inv :
    (c : Config) (ts : List SubAgentTask) (s : State)
    → Known ts s.tasks
    → Inv c waiting s
    → Inv c waiting (launch ts s)
unfolding launch contains
launch-Inv c [] s k inv = inv
launch-Inv c (t ∷ ts) s k inv = elim (Bool-cases (contains t.task_id s.started)) [
  | inl e ↦ rw (e, launch) (launch-Inv c ts s (λ i m. k i (ground arith)) inv)
  | inr e ↦
      rw (e, launch)
        (launch-Inv c ts (launched c s t (own k) e inv) (λ i m. k i (ground arith))
          (launched-Inv c s t (own k) e inv))
]
  where
    own : Known (t ∷ ts) s.tasks → status_of t.task_id s.tasks ≢ none
    own known = known t.task_id (ground (arith, str_eq_self t.task_id))

Known-keep : (p : SubAgentTask → Bool) (tasks : List SubAgentTask) → Known (keep p tasks) tasks
unfolding keep contains status_of
Known-keep p [] i m = cc
Known-keep p (t ∷ tasks) i m = ground (arith, Known-keep p tasks i)

guard_end-Inv :
    (c : Config) (s : State) (l : List (String × Stage))
    → s.live ≡ l
    → Inv c waiting s
    → Inv c (guard_end s l).phase (guard_end s l)
unfolding guard_end stage_of
guard_end-Inv c s [] e inv = record {
  room = inv.room;
  distinct = inv.distinct;
  at = λ j.
      rw (status_of-skip_if is_pending j s.tasks, e)
        (Local-over (contains j s.completed) (contains j s.started) (status_of j s.tasks)
          (rw e at (inv.at j)));
}
guard_end-Inv c s (x ∷ l) e inv = record { room = inv.room; distinct = inv.distinct; at = inv.at }

-- The launching loop of a turn.
pub ready-Inv :
    (c : Config) (s : State)
    → Inv c waiting s
    → Inv c waiting (launch (ready_tasks s.tasks s.dag s.completed) s)
unfolding ready_tasks
ready-Inv c s inv =
    launch-Inv c (ready_tasks s.tasks s.dag s.completed) s (Known-keep _ s.tasks) inv

pub turn-Inv : (c : Config) (s : State) → Inv c waiting s → Inv c (turn s).phase (turn s)
unfolding turn
turn-Inv c s inv =
    guard_end-Inv c (launch (ready_tasks s.tasks s.dag s.completed) s)
      (launch (ready_tasks s.tasks s.dag s.completed) s).live refl (ready-Inv c s inv)

pub wake-Inv : (c : Config) (s : State) → Inv c waiting s → Inv c (wake c s).phase (wake c s)
unfolding wake
wake-Inv c s inv =
    let s' = process_all (done_ids s.live) s in
    let inv' = processed-Inv c s inv in
    elim (Bool-cases (c.fail_fast && any_failed (done_ids s.live) s'.tasks)) [
      | inl e ↦
          rw (e, wake)
            (record {
              room = inv'.room;
              distinct = inv'.distinct;
              at = λ j. rw (status_of-skip_if is_pending j s'.tasks) (
                  Local-skip (contains j s'.completed) (contains j s'.started)
                    (status_of j s'.tasks) (stage_of j s'.live) (inv'.at j));
            })
      | inr e ↦ rw (e, wake) (turn-Inv c s' inv')
    ]

pub conclude-Inv : (c : Config) (s : State) → Inv c cancelling s → Inv c finished (conclude s)
unfolding conclude count_if stage_of
conclude-Inv c s inv = record {
  room = omega arith;
  distinct = tt;
  at = λ j. rw (status_of-skip_if is_running j s.tasks) (
      Local-conclude (contains j s.completed) (contains j s.started) (status_of j s.tasks)
        (stage_of j s.live) (inv.at j));
}
