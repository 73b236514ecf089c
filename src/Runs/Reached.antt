-- ===== src/Runs/Reached.antt =====
-- What holds of a run and its threads in every state that is reached.
use mathlib.Core.Path.{subst}
use lula.Prelude.{
  ℕ, suc, String, ◌≡◌, ◌⊎◌, refl, sym, ap, true, false, not, ◌||◌, Option, List, arith, if_cases,
  inl, inr,
}
use lula.Prelude.Int.{ℤ}
use lula.Runs.{RunRecord, TraceReading, refresh, finish, cancel_run}
use lula.Runs.Threads.{
  World, created, start, mark_finished, append_log, Step, reads, logs, marks, applies, cancels,
  approves, rejects, Reach, here, next,
}
use lula.Runs.Invariant.{
  IsSound, finish-IsSound, apply-IsSound, refresh-IsSound, cancel-IsSound, approve-changed,
  reject-changed, resumed-IsSound, refused-IsSound, finish-finished,
}

-- Whether a thread may be between the two locks of _mark_finished.
abbrev pub IsBetween : ℕ → RunRecord → Type 0
IsBetween n r = (n ≡ 0) ⊎ ((n ≡ 1) × (r.finished ≡ true) × (r.pending_approval ≡ false))

pub record IsConsistent (w : World) : Type 0 where
  pub sound : IsSound w.run
  pub between : IsBetween w.applying w.run

pub refresh-finished :
    (poll : Option ℤ) (t : TraceReading) (r : RunRecord) → r.finished ≡ true → refresh poll t r ≡ r
unfolding refresh
refresh-finished poll t r f =
    if_cases (λ x. x ≡ r) (r.finished || not r.has_process) (λ _. refl) (λ e. ground arith)

pub cancel-finished :
    (poll : Option ℤ) (t : TraceReading) (r : RunRecord)
    → r.finished ≡ true
    → cancel_run poll t r ≡ r
unfolding cancel_run
cancel-finished poll t r f =
    let e = refresh-finished poll t r f in
    if_cases (λ x. x ≡ r) ((refresh poll t r).finished || (refresh poll t r).cancel_requested)
      (λ _. e) (λ h. ground (arith, ap (λ x. x.finished) e))

-- A step that keeps a finished record keeps what is between the locks.
IsBetween-kept :
    (f : RunRecord → RunRecord) (n : ℕ) (r : RunRecord)
    → (r.finished ≡ true → f r ≡ r)
    → IsBetween n r
    → IsBetween n (f r)
IsBetween-kept f n r kept (inl e) = inl e
IsBetween-kept f n r kept (inr h) = subst (IsBetween n) (sym (kept (h.1))) (inr h)

-- While a thread is between the locks, no approval is pending.
pub pending-between :
    (poll : Option ℤ) (t : TraceReading) (n : ℕ) (r : RunRecord)
    → IsBetween n r
    → (refresh poll t r).pending_approval ≡ true
    → n ≡ 0
pending-between poll t n r (inl e) p = e
pending-between poll t n r (inr h) p =
    ground (arith, ap (λ x. x.pending_approval) (refresh-finished poll t r h.1))

marked-IsConsistent :
    (n : ℕ) (code : ℤ) (w : World) → IsConsistent w → IsConsistent (mark_finished n code w)
unfolding mark_finished finish
marked-IsConsistent n code w c =
    if_cases IsConsistent w.run.finished (λ f. record { sound = c.sound; between = c.between })
      (λ f. record {
        sound = finish-IsSound code w.run c.sound f;
        between = inr (ground (arith, c.between), finish-finished code w.run, (c.sound.live f).1);
      })

-- Where a thread takes the second lock, the run is finished, and nothing is pending.
pub applying-finished :
    (m n : ℕ) (r : RunRecord)
    → IsBetween m r
    → m ≡ suc n
    → (n ≡ 0) × (r.finished ≡ true) × (r.pending_approval ≡ false)
applying-finished m n r (inl z) e = ground (arith, z, e)
applying-finished m n r (inr h) e = (ground (arith, h.0, e), h.1, h.2)

pub step-IsConsistent : {w v : World} → Step w v → IsConsistent w → IsConsistent v
unfolding append_log
step-IsConsistent (reads w poll t) c = record {
  sound = refresh-IsSound poll t w.run c.sound;
  between =
      IsBetween-kept (refresh poll t) w.applying w.run (refresh-finished poll t w.run) c.between;
}
step-IsConsistent (logs w line) c = record {
  sound = record {
    live = c.sound.live;
    waits = c.sound.waits;
    over = c.sound.over;
    exits = c.sound.exits;
  };
  between = c.between;
}
step-IsConsistent (marks w n code e) c = marked-IsConsistent n code w c
step-IsConsistent (applies w n a e) c =
    let h = applying-finished w.applying n w.run c.between e in
    record { sound = apply-IsSound a w.run c.sound h.1 h.2; between = inl h.0 }
step-IsConsistent (cancels w poll t) c = record {
  sound = cancel-IsSound poll t w.run c.sound;
  between =
      IsBetween-kept (cancel_run poll t) w.applying w.run (cancel-finished poll t w.run) c.between;
}
step-IsConsistent (approves w poll t d subject r e) c =
    let h = approve-changed d subject (refresh poll t w.run) e in
    record {
      sound = resumed-IsSound h;
      between = inl (pending-between poll t w.applying w.run c.between h.was_pending);
    }
step-IsConsistent (rejects w poll t d subject r e) c =
    let h = reject-changed d subject (refresh poll t w.run) e in
    record {
      sound = refused-IsSound h;
      between = inl (pending-between poll t w.applying w.run c.between h.was_pending);
    }

start-IsConsistent :
    (argv : List String) (thread_id checkpoint_id : String)
    → IsConsistent (start (created argv thread_id checkpoint_id))
unfolding start created
start-IsConsistent argv thread_id checkpoint_id = record {
  sound = record {
    live = λ f. (refl, refl);
    waits = λ p. ground arith;
    over = λ f. ground arith;
    exits = λ f. ground arith;
  };
  between = inl refl;
}

pub Reach-IsConsistent : {w v : World} → Reach w v → IsConsistent w → IsConsistent v
Reach-IsConsistent here c = c
Reach-IsConsistent (next r s) c = step-IsConsistent s (Reach-IsConsistent r c)

-- In every state that the threads and the requests bring a created run to: an unfinished run is running
-- or cancelling, and awaits no approval; a run that awaits an approval is suspended, and nobody asked to
-- cancel it; a finished one that awaits none has a status of the end; a finished one has an exit code;
-- and at most one thread is between the two locks of _mark_finished, the run then being finished and
-- awaiting no approval.
pub created-IsConsistent :
    (argv : List String) (thread_id checkpoint_id : String) {w : World}
    → Reach (start (created argv thread_id checkpoint_id)) w
    → IsConsistent w
created-IsConsistent argv thread_id checkpoint_id r =
    Reach-IsConsistent r (start-IsConsistent argv thread_id checkpoint_id)
