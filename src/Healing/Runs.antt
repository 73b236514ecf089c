-- ===== src/Healing/Runs.antt =====
-- The reachable states of the healing loop.
use lula.Prelude.{
  ℕ, zero, suc, ◌≤◌, ◌≡◌, ◌∙◌, ap, sym, refl, true, false, List, [], ◌∷◌, ◌++◌, arith, ltb, ◌==◌,
  length, take, keep, not, Bool-cases, inl, inr,
}
use lula.Healing.{
  JobStatus, running, HealingJob, HealingLoop, TestSuiteResult, Step, Reach, here, next, polls,
  ends, finishes, wakes, cancels, stops_group, stops_polling, stops_sleeping, set_status, status_of,
  mark_running, enqueue, dispatch_pending_jobs, JobEnd, no_runner, verified, unverified, raised,
  aborted, run_job, end_status, contains_place, start,
}
use lula.Healing.Queue.{
  is_queued, is_waiting, queued_places, queued_places-append, queued_places-set_status,
  queued_places-mark_running, length-take, length-keep-le, status_of-set_status,
}

record Inv (n : ℕ) (s : HealingLoop) : Type 0 where
  queue : s.pending ≡ queued_places s.jobs
  settled : (i : ℕ) → contains_place i s.live ≡ true → is_waiting (status_of s.jobs i) ≡ false
  room : length s.live ≤ n

settled-set_status :
    (i k : ℕ) (st : JobStatus) (js : List HealingJob)
    → is_queued st ≡ false
    → is_waiting (status_of js k) ≡ false
    → is_waiting (status_of (set_status i st js) k) ≡ false
settled-set_status i k st js n w = elim (status_of-set_status i k st js) [
  | inl e ↦ rw e w
  | inr e ↦ rw e n
]

settled_self :
    (i : ℕ) (js : List HealingJob) → is_waiting (status_of (set_status i running js) i) ≡ false
unfolding status_of set_status
settled_self i [] = refl
settled_self zero (j ∷ js) = refl
settled_self (suc i) (j ∷ js) = settled_self i js

settled-mark_running :
    (k : ℕ) (is : List ℕ) (js : List HealingJob)
    → is_waiting (status_of js k) ≡ false
    → is_waiting (status_of (mark_running is js) k) ≡ false
unfolding mark_running
settled-mark_running k [] js w = w
settled-mark_running k (i ∷ is) js w =
    settled-mark_running k is (set_status i running js) (settled-set_status i k running js refl w)

batch-settled :
    (k : ℕ) (is : List ℕ) (js : List HealingJob)
    → contains_place k is ≡ true
    → is_waiting (status_of (mark_running is js) k) ≡ false
unfolding mark_running contains_place
batch-settled k [] js h = cc
batch-settled k (i ∷ is) js h = elim (Bool-cases (i == k)) [
  | inl e ↦
      let same : i ≡ k = ground (arith, e) in
      settled-mark_running k is (set_status i running js) (rw same (settled_self k js))
  | inr e ↦ batch-settled k is (set_status i running js) (rw e at h)
]

contains_place-keep :
    (i k : ℕ) (is : List ℕ)
    → contains_place k (keep (λ m. not (m == i)) is) ≡ true
    → contains_place k is ≡ true
unfolding contains_place keep
contains_place-keep i k [] h = h
contains_place-keep i k (m ∷ is) h = ground (arith, contains_place-keep i k is)

enqueue-queue :
    (r : TestSuiteResult) (s : HealingLoop)
    → s.pending ≡ queued_places s.jobs
    → (enqueue r s).pending ≡ queued_places (enqueue r s).jobs
unfolding enqueue
enqueue-queue r s q = elim (Bool-cases (ltb 0 r.failures)) [
  | inl e ↦ rw e (ap (λ l. l ++ length s.jobs ∷ []) q ∙ sym (queued_places-append s.jobs _ refl))
  | inr e ↦ rw e q
]

dispatch-Inv :
    (n : ℕ) (s : HealingLoop) → s.pending ≡ queued_places s.jobs → Inv n (dispatch_pending_jobs n s)
unfolding dispatch_pending_jobs
dispatch-Inv n s q = record {
  queue = queued_places-mark_running n s.pending s.jobs q;
  settled = λ i h. batch-settled i (take n s.pending) s.jobs h;
  room = length-take n s.pending;
}

end_status-is_queued : (e : JobEnd) → is_queued (end_status e) ≡ false
unfolding end_status
end_status-is_queued no_runner = refl
end_status-is_queued verified = refl
end_status-is_queued unverified = refl
end_status-is_queued raised = refl
end_status-is_queued aborted = refl

run_job-Inv :
    (n i : ℕ) (e : JobEnd) (s : HealingLoop)
    → contains_place i s.live ≡ true
    → Inv n s
    → Inv n (run_job i e s)
unfolding run_job
run_job-Inv n i e s c inv =
    let new = end_status-is_queued e in
    record {
      queue =
          inv.queue ∙ sym (queued_places-set_status i (end_status e) s.jobs new (inv.settled i c));
      settled = λ k h.
          settled-set_status i k (end_status e) s.jobs new
            (inv.settled k (contains_place-keep i k s.live h));
      room = omega (arith, inv.room, length-keep-le (λ k. not (k == i)) s.live);
    }

Step-Inv : {n : ℕ} {s t : HealingLoop} → Step n s t → Inv n s → Inv n t
Step-Inv {n} (polls s r p) inv = dispatch-Inv n (enqueue r s) (enqueue-queue r s inv.queue)
Step-Inv {n} (ends s i e c) inv = run_job-Inv n i e s c inv
Step-Inv (finishes s p l) inv = record { queue = inv.queue; settled = inv.settled; room = inv.room }
Step-Inv (wakes s p) inv = record { queue = inv.queue; settled = inv.settled; room = inv.room }
Step-Inv (cancels s p) inv = record { queue = inv.queue; settled = inv.settled; room = inv.room }
Step-Inv (stops_group s p l) inv = record {
  queue = inv.queue;
  settled = inv.settled;
  room = inv.room;
}
Step-Inv (stops_polling s p) inv = record {
  queue = inv.queue;
  settled = inv.settled;
  room = inv.room;
}
Step-Inv (stops_sleeping s p) inv = record {
  queue = inv.queue;
  settled = inv.settled;
  room = inv.room;
}

Reach-Inv : {n : ℕ} {s : HealingLoop} → Reach n s → Inv n s
unfolding start queued_places contains_place
Reach-Inv here = record { queue = refl; settled = λ i h. cc; room = omega arith }
Reach-Inv (next r st) = Step-Inv st (Reach-Inv r)

-- In every reachable state, the pending jobs are just the jobs with status "queued", oldest first, so
-- that none is lost and none waits twice, and at most `n` jobs of a batch have not ended, where `n`
-- is the number of concurrent jobs allowed.
pub Reach-queue :
    (n : ℕ) (s : HealingLoop) → Reach n s → (s.pending ≡ queued_places s.jobs) × (length s.live ≤ n)
Reach-queue n s r = let inv = Reach-Inv r in (inv.queue, inv.room)
