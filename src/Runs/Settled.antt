-- ===== src/Runs/Settled.antt =====
-- What the automaton says of every state that a created run comes to, and of a run that is done with.
use lula.Prelude.{ℕ, zero, suc, String, ◌≡◌, refl, Bool, true, false, List, arith}
use lula.Runs.{RunStatus}
use lula.Runs.Threads.{World, created, start, Reach, here, next}
use lula.Runs.Reached.{IsConsistent, Reach-IsConsistent, created-IsConsistent}
use lula.Runs.Lifecycle.{
  Phase, closed, Move, Moves, stays, moves, ends, closes, suspends, Kind, Allows, moved, resumed,
  closed_by_user, phase_of, phase_at, phase, step-Allows,
}

closed_only : {p q : Phase} {s : RunStatus} → Move p q → p ≡ closed s → q ≡ closed s
closed_only (ends s f) e = ground (arith, e)
closed_only (closes s) e = ground (arith, e)
closed_only (suspends s) e = ground (arith, e)

closed-stays : {p q : Phase} {s : RunStatus} → Moves p q → p ≡ closed s → q ≡ closed s
closed-stays stays e = e
closed-stays (moves m n) e = closed_only n (closed-stays m e)

closed-Allows :
    {p q : Phase} {k : Kind} {s : RunStatus} → Allows p k q → p ≡ closed s → q ≡ closed s
closed-Allows (moved m) e = closed-stays m e
closed-Allows (resumed m) e = ground (arith, closed-stays m e)
closed-Allows (closed_by_user m) e = ground (arith, closed-stays m e)

Reach-closed :
    {w v : World} {s : RunStatus}
    → IsConsistent w
    → Reach w v
    → phase w ≡ closed s
    → phase v ≡ closed s
Reach-closed c here e = e
Reach-closed c (next r s) e =
    closed-Allows (step-Allows (Reach-IsConsistent r c) s) (Reach-closed c r e)

phase_of-inv :
    (p f : Bool) (n : ℕ) (s t : RunStatus)
    → phase_of p f n s ≡ closed t
    → (p ≡ false) × (f ≡ true) × (s ≡ t)
unfolding phase_of
phase_of-inv true f n s t e = ground (arith, e)
phase_of-inv false false n s t e = ground (arith, e)
phase_of-inv false true zero s t e = (refl, refl, ground (arith, e))
phase_of-inv false true (suc n) s t e = ground (arith, e)

-- Once a created run is finished, awaits no approval and has no thread between the two locks, it stays
-- finished, with the same status and no pending approval, whatever the threads and requests do.
pub closed-status :
    (argv : List String) (thread_id checkpoint_id : String) {w v : World}
    → Reach (start (created argv thread_id checkpoint_id)) w
    → phase w ≡ closed w.run.status
    → Reach w v
    → (v.run.pending_approval ≡ false) × (v.run.finished ≡ true) × (v.run.status ≡ w.run.status)
unfolding phase phase_at
closed-status argv thread_id checkpoint_id {w} {v} r e q =
    phase_of-inv _ _ v.applying _ w.run.status
      (Reach-closed (created-IsConsistent argv thread_id checkpoint_id r) q e)
