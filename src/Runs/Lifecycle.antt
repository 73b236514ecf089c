-- ===== src/Runs/Lifecycle.antt =====
-- The life of a run as an automaton of four kinds of states, and that the threads and the requests of
-- py/src/lg_orch/api/service.py take a run along it.
use mathlib.Core.Path.{subst}
use lula.Prelude.{
  ℕ, zero, suc, ◌≡◌, refl, ◌∙◌, sym, ap, Bool, true, false, not, ◌&&◌, ◌||◌, Option, none, some,
  arith, if◌then◌else◌, if_cases, inl, inr,
}
use lula.Prelude.Int.{ℤ}
use lula.Runs.Trace.{ApprovalState}
use lula.Runs.{
  RunStatus, suspended, cancelling, refused, RunRecord, TraceReading, refresh, refresh_polled,
  finish, apply_approval_state, cancel_run,
}
use lula.Runs.Threads.{
  World, mark_finished, append_log, Step, reads, logs, marks, applies, cancels, approves, rejects,
}
use lula.Runs.Invariant.{
  is_final, IsSound, finish-IsSound, refresh-IsSound, approve-changed, reject-changed,
}
use lula.Runs.Reached.{
  IsBetween, IsConsistent, refresh-finished, cancel-finished, pending-between, applying-finished,
}

-- `awaiting` stands for an approval. An `ended` run has lost its process, and its trace is still to
-- be read; a `closed` one is done with.
pub data Phase : Type 0 where
  active awaiting : Phase
  ended closed : RunStatus → Phase

-- What the end of the process and the reading of its trace do.
pub data Move : Phase → Phase → Type 0 where
  ends : (s : RunStatus) → is_final s ≡ true → Move active (ended s)
  closes : (s : RunStatus) → Move (ended s) (closed s)
  suspends : (s : RunStatus) → Move (ended s) awaiting

pub data Moves (p : Phase) : Phase → Type 0 where
  stays : Moves p p
  moves : {q r : Phase} → Moves p q → Move q r → Moves p r

unfoldable pub phase_of : Bool → Bool → ℕ → RunStatus → Phase
phase_of true f n s = awaiting
phase_of false false n s = active
phase_of false true zero s = closed s
phase_of false true (suc n) s = ended s

unfoldable pub phase_at : ℕ → RunRecord → Phase
phase_at n r = phase_of r.pending_approval r.finished n r.status

-- The phase of a run and its threads.
unfoldable pub phase : World → Phase
phase w = phase_at w.applying w.run

pub Moves-trans : {p q r : Phase} → Moves p q → Moves q r → Moves p r
Moves-trans m stays = m
Moves-trans m (moves n k) = moves (Moves-trans m n) k

pub phase_of-awaiting :
    (p f : Bool) (n : ℕ) (s : RunStatus) → p ≡ true → phase_of p f n s ≡ awaiting
unfolding phase_of
phase_of-awaiting p f n s e = ap (λ x. phase_of x f n s) e

pub phase_of-active :
    (p f : Bool) (n : ℕ) (s : RunStatus) → p ≡ false → f ≡ false → phase_of p f n s ≡ active
unfolding phase_of
phase_of-active p f n s e g = ap (λ x. phase_of x f n s) e ∙ ap (λ x. phase_of false x n s) g

phase_of-ended :
    (p f : Bool) (n : ℕ) (s : RunStatus) → p ≡ false → f ≡ true → phase_of p f (suc n) s ≡ ended s
unfolding phase_of
phase_of-ended p f n s e g =
    ap (λ x. phase_of x f (suc n) s) e ∙ ap (λ x. phase_of false x (suc n) s) g

pub phase_of-closed :
    (p f : Bool) (n : ℕ) (s : RunStatus)
    → p ≡ false
    → f ≡ true
    → n ≡ 0
    → phase_of p f n s ≡ closed s
unfolding phase_of
phase_of-closed p f n s e g z =
    ap (λ x. phase_of x f n s) e
    ∙ ap (λ x. phase_of false x n s) g
    ∙ ap (λ x. phase_of false true x s) z

by_equal : {p q r : Phase} → p ≡ q → Moves q r → Moves p r
by_equal {r} e m = subst (λ x. Moves x r) (sym e) m

to_equal : {p q r : Phase} → Moves p q → q ≡ r → Moves p r
to_equal m e = subst (Moves _) e m

suspended-Moves :
    (b f : Bool) (s : RunStatus)
    → f ≡ true
    → Moves (ended s) (phase_of b f 0 (if b then suspended else s))
unfolding phase_of
suspended-Moves true f s e = moves stays (suspends s)
suspended-Moves false f s e =
    to_equal (moves stays (closes s)) (sym (phase_of-closed false f 0 s refl e refl))

apply-Moves :
    (a : ApprovalState) (r : RunRecord)
    → r.finished ≡ true
    → Moves (ended r.status) (phase_at 0 (apply_approval_state a r))
unfolding apply_approval_state phase_at
apply-Moves a r f = suspended-Moves (a.pending && not r.cancel_requested) r.finished r.status f

refresh_polled-Moves :
    (poll : Option ℤ) (t : TraceReading) (r : RunRecord)
    → IsSound r
    → r.finished ≡ false
    → Moves (phase_at 0 r) (phase_at 0 (refresh_polled poll t r))
unfolding refresh_polled finish phase_at
refresh_polled-Moves none t r s f = stays
refresh_polled-Moves (some code) t r s f =
    by_equal (phase_of-active _ _ 0 r.status ((s.live f).1) f) (
      Moves-trans
        (moves stays
          (ends (finish code r).status ((finish-IsSound code r s f).over refl (s.live f).1)))
        (apply-Moves t.approval (finish code r) refl))

refresh-Moves :
    (poll : Option ℤ) (t : TraceReading) (r : RunRecord)
    → IsSound r
    → Moves (phase_at 0 r) (phase_at 0 (refresh poll t r))
unfolding refresh
refresh-Moves poll t r s =
    if_cases (λ x. Moves (phase_at 0 r) (phase_at 0 x)) (r.finished || not r.has_process)
      (λ _. stays) (λ e. refresh_polled-Moves poll t r s (ground arith))

cancel-Moves :
    (poll : Option ℤ) (t : TraceReading) (r : RunRecord)
    → IsSound r
    → Moves (phase_at 0 r) (phase_at 0 (cancel_run poll t r))
unfolding cancel_run phase_at
cancel-Moves poll t r s =
    let r' = refresh poll t r in
    let m = refresh-Moves poll t r s in
    let s' = refresh-IsSound poll t r s in
    if_cases (λ x. Moves (phase_at 0 r) (phase_at 0 x)) (r'.finished || r'.cancel_requested)
      (λ _. m)
      (λ e. to_equal m (
        phase_of-active _ _ 0 r'.status (s'.live (ground arith)).1 (ground arith)
        ∙ sym (phase_of-active _ _ 0 cancelling (s'.live (ground arith)).1 (ground arith))))

-- What a function that leaves finished records does, whatever is between the locks.
kept-Moves :
    (f : RunRecord → RunRecord) (n : ℕ) (r : RunRecord)
    → (r.finished ≡ true → f r ≡ r)
    → Moves (phase_at 0 r) (phase_at 0 (f r))
    → IsBetween n r
    → Moves (phase_at n r) (phase_at n (f r))
kept-Moves f n r kept m (inl e) = subst (λ k. Moves (phase_at k r) (phase_at k (f r))) (sym e) m
kept-Moves f n r kept m (inr h) =
    subst (λ x. Moves (phase_at n r) (phase_at n x)) (sym (kept h.1)) stays

marks-Moves :
    (n : ℕ) (code : ℤ) (w : World)
    → IsSound w.run
    → Moves (phase w) (phase (mark_finished n code w))
unfolding mark_finished phase phase_at finish
marks-Moves n code w s =
    if_cases (λ v. Moves (phase w) (phase v)) w.run.finished (λ _. stays)
      (λ f.
        let r = finish code w.run in
        let p = (s.live f).1 in
        by_equal (phase_of-active _ _ w.applying w.run.status p f) (
          to_equal (moves stays (ends r.status ((finish-IsSound code w.run s f).over refl p)))
            (sym (phase_of-ended _ true w.applying r.status p refl))))

applies-Moves :
    (m n : ℕ) (a : ApprovalState) (r : RunRecord)
    → IsBetween m r
    → m ≡ suc n
    → Moves (phase_at m r) (phase_at n (apply_approval_state a r))
unfolding phase_at
applies-Moves m n a r b e =
    let h = applying-finished m n r b e in
    by_equal (ap (λ k. phase_at k r) e ∙ phase_of-ended _ _ n r.status h.2 h.1)
      (to_equal (apply-Moves a r h.1) (ap (λ k. phase_at k (apply_approval_state a r)) (sym h.0)))

-- What a step is: an answer of a user to the pending approval, or anything else.
pub data Kind : Type 0 where
  other approval rejection : Kind

unfoldable pub kind_of : {w v : World} → Step w v → Kind
kind_of (reads w poll t) = other
kind_of (logs w line) = other
kind_of (marks w n code e) = other
kind_of (applies w n a e) = other
kind_of (cancels w poll t) = other
kind_of (approves w poll t d subject r e) = approval
kind_of (rejects w poll t d subject r e) = rejection

-- The transitions that the automaton allows to each kind of step: an answer comes to a run that awaits
-- an approval, perhaps since the reading that goes before it, and resumes the run or closes it.
pub data Allows (p : Phase) : Kind → Phase → Type 0 where
  moved : {q : Phase} → Moves p q → Allows p other q
  resumed : Moves p awaiting → Allows p approval active
  closed_by_user : Moves p awaiting → Allows p rejection (closed refused)

to_allowed : {p q r : Phase} {k : Kind} → Allows p k q → q ≡ r → Allows p k r
to_allowed {p} {k} a e = subst (Allows p k) e a

-- The moves of the reading before an answer to a pending approval.
answered-Moves :
    (poll : Option ℤ) (t : TraceReading) (n : ℕ) (r : RunRecord)
    → IsSound r
    → IsBetween n r
    → (refresh poll t r).pending_approval ≡ true
    → Moves (phase_at n r) awaiting
unfolding phase_at
answered-Moves poll t n r s b p =
    let r' = refresh poll t r in
    to_equal
      (kept-Moves (refresh poll t) n r (refresh-finished poll t r) (refresh-Moves poll t r s) b)
      (phase_of-awaiting _ r'.finished n r'.status p)

-- The automaton allows every step of the threads and of the requests from a consistent state.
pub step-Allows :
    {w v : World} → IsConsistent w → (s : Step w v) → Allows (phase w) (kind_of s) (phase v)
unfolding phase append_log phase_at kind_of
step-Allows c (reads w poll t) = moved (
    kept-Moves (refresh poll t) w.applying w.run (refresh-finished poll t w.run)
      (refresh-Moves poll t w.run c.sound) c.between)
step-Allows c (logs w line) = moved stays
step-Allows c (marks w n code e) = moved (marks-Moves n code w c.sound)
step-Allows c (applies w n a e) = moved (applies-Moves w.applying n a w.run c.between e)
step-Allows c (cancels w poll t) = moved (
    kept-Moves (cancel_run poll t) w.applying w.run (cancel-finished poll t w.run)
      (cancel-Moves poll t w.run c.sound) c.between)
step-Allows c (approves w poll t d subject r e) =
    let h = approve-changed d subject (refresh poll t w.run) e in
    to_allowed (resumed (answered-Moves poll t w.applying w.run c.sound c.between h.was_pending))
      (sym (phase_of-active _ _ w.applying r.status h.not_pending h.unfinished))
step-Allows c (rejects w poll t d subject r e) =
    let h = reject-changed d subject (refresh poll t w.run) e in
    let z = pending-between poll t w.applying w.run c.between h.was_pending in
    to_allowed
      (closed_by_user (answered-Moves poll t w.applying w.run c.sound c.between h.was_pending))
      (ap closed (sym h.refuses)
        ∙ sym (phase_of-closed _ _ w.applying r.status h.not_pending h.finished z))
