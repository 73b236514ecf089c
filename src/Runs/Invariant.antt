-- ===== src/Runs/Invariant.antt =====
-- What holds of the record of a run between two steps.
use lula.Prelude.{
  String, ◌≡◌, refl, ◌∙◌, ap, Bool, true, false, not, ◌||◌, Option, none, some, arith,
  if◌then◌else◌, if_cases, if_both,
}
use mathlib.Core.Path.{subst}
use lula.Prelude.Int.{ℤ, pos}
use lula.Tokens.{non_empty_str}
use lula.Prelude.Texts.{is_blank}
use lula.Runs.Trace.{Entry, ApprovalState}
use lula.Runs.{
  RunStatus, RunRecord, running, cancelling, suspended, succeeded, failed, cancelled, refused,
  is_zero_code, TraceReading, Decision, changed, error, refresh, refresh_polled, finish,
  apply_approval_state, cancel_run, approve, approve_challenge, resumed, reject, mismatches,
  Outcome,
}

-- The status of a run that is over.
abbrev pub is_final : RunStatus → Bool
is_final succeeded = true
is_final failed = true
is_final cancelled = true
is_final refused = true
is_final running = false
is_final cancelling = false
is_final suspended = false

-- The status of a run whose process may still be there.
abbrev pub is_live : RunStatus → Bool
is_live running = true
is_live cancelling = true
is_live _ = false

pub record IsSound (r : RunRecord) : Type 0 where
  pub live : r.finished ≡ false → (is_live r.status ≡ true) × (r.pending_approval ≡ false)
  pub waits : r.pending_approval ≡ true → (r.status ≡ suspended) × (r.cancel_requested ≡ false)
  pub over : r.finished ≡ true → r.pending_approval ≡ false → is_final r.status ≡ true
  pub exits : r.finished ≡ true → (code : ℤ) × (r.exit_code ≡ some code)

ended-is_final :
    (c z : Bool) → is_final (if c then cancelled else (if z then succeeded else failed)) ≡ true
ended-is_final true z = refl
ended-is_final false true = refl
ended-is_final false false = refl

pub finish-IsSound :
    (code : ℤ) (r : RunRecord) → IsSound r → r.finished ≡ false → IsSound (finish code r)
unfolding finish
finish-IsSound code r s f = record {
  live = λ g. ground arith;
  waits = λ p. ground (arith, s.live f);
  over = λ _ _. ended-is_final r.cancel_requested (is_zero_code code);
  exits = λ g. (code, refl);
}

-- What apply_approval_state makes of a status.
pub suspended-or : (b : Bool) (s : RunStatus) → b ≡ true → (if b then suspended else s) ≡ suspended
suspended-or b s p = ap (λ x. if x then suspended else s) p

pub other-status : (b : Bool) (s : RunStatus) → b ≡ false → (if b then suspended else s) ≡ s
other-status b s p = ap (λ x. if x then suspended else s) p

pub finish-finished : (code : ℤ) (r : RunRecord) → (finish code r).finished ≡ true
unfolding finish
finish-finished code r = refl

pub apply-IsSound :
    (a : ApprovalState) (r : RunRecord)
    → IsSound r
    → r.finished ≡ true
    → r.pending_approval ≡ false
    → IsSound (apply_approval_state a r)
unfolding apply_approval_state
apply-IsSound a r s f p = record {
  live = λ g. ground arith;
  waits = λ q. (suspended-or _ r.status q, ground arith);
  over = λ _ q. ap is_final (other-status _ r.status q) ∙ s.over f p;
  exits = s.exits;
}

refresh_polled-IsSound :
    (poll : Option ℤ) (t : TraceReading) (r : RunRecord)
    → IsSound r
    → r.finished ≡ false
    → IsSound (refresh_polled poll t r)
unfolding refresh_polled finish
refresh_polled-IsSound none t r s f = s
refresh_polled-IsSound (some code) t r s f =
    let q =
      apply-IsSound t.approval (finish code r) (finish-IsSound code r s f) (finish-finished code r)
        ((s.live f).1) in
    record { live = q.live; waits = q.waits; over = q.over; exits = q.exits }

pub refresh-IsSound :
    (poll : Option ℤ) (t : TraceReading) (r : RunRecord) → IsSound r → IsSound (refresh poll t r)
unfolding refresh
refresh-IsSound poll t r s =
    if_cases IsSound (r.finished || not r.has_process) (λ _. s)
      (λ e. refresh_polled-IsSound poll t r s (ground arith))

pub cancel-IsSound :
    (poll : Option ℤ) (t : TraceReading) (r : RunRecord) → IsSound r → IsSound (cancel_run poll t r)
unfolding cancel_run
cancel-IsSound poll t r s =
    let r' = refresh poll t r in
    let s' = refresh-IsSound poll t r s in
    if_cases IsSound (r'.finished || r'.cancel_requested) (λ _. s')
      (λ e. record {
        live = λ f. (refl, (s'.live f).1);
        waits = λ p. ground (arith, s'.waits p);
        over = λ f. ground arith;
        exits = s'.exits;
      })

-- The property of a record that an outcome carries, where it carries one.
abbrev pub OnChange : (RunRecord → Type 0) → Outcome → Type 0
OnChange P (changed r) = P r
OnChange P (error e) = Unit {0}

of-changed :
    (P : RunRecord → Type 0) {o : Outcome} {r : RunRecord} → OnChange P o → o ≡ changed r → P r
of-changed P h e = subst (OnChange P) e h

-- What an approval finds and leaves.
pub record IsResumed (r r' : RunRecord) : Type 0 where
  pub was_pending : r.pending_approval ≡ true
  pub runs : r'.status ≡ running
  pub unfinished : r'.finished ≡ false
  pub not_pending : r'.pending_approval ≡ false
  pub no_code : r'.exit_code ≡ none

-- What a rejection finds and leaves.
pub record IsRefused (r r' : RunRecord) : Type 0 where
  pub was_pending : r.pending_approval ≡ true
  pub refuses : r'.status ≡ refused
  pub finished : r'.finished ≡ true
  pub not_pending : r'.pending_approval ≡ false
  pub code : r'.exit_code ≡ some (pos 1)

resumed-IsResumed :
    (actor : String) (e : Entry) (r : RunRecord)
    → r.pending_approval ≡ true
    → IsResumed r (resumed actor e r)
unfolding resumed
resumed-IsResumed actor e r p = record {
  was_pending = p;
  runs = refl;
  unfinished = refl;
  not_pending = refl;
  no_code = refl;
}

approve_challenge-OnChange :
    (d : Decision) (subject : String) (r : RunRecord) (c : Option String)
    → r.pending_approval ≡ true
    → OnChange (IsResumed r) (approve_challenge d subject r c)
unfolding approve_challenge
approve_challenge-OnChange d subject r none p = tt
approve_challenge-OnChange d subject r (some c) p =
    if_both (OnChange (IsResumed r)) (mismatches (non_empty_str d.challenge_id) c) tt (
      if_both (OnChange (IsResumed r)) (is_blank r.thread_id || is_blank r.checkpoint_id) tt
        (resumed-IsResumed _ _ r p))

pub approve-changed :
    (d : Decision) (subject : String) (r : RunRecord) {r' : RunRecord}
    → approve d subject r ≡ changed r'
    → IsResumed r r'
unfolding approve
approve-changed d subject r = of-changed (IsResumed r) (
    if_cases (OnChange (IsResumed r)) (not r.pending_approval) (λ _. tt)
      (λ e. approve_challenge-OnChange d subject r _ (ground arith)))

pub reject-changed :
    (d : Decision) (subject : String) (r : RunRecord) {r' : RunRecord}
    → reject d subject r ≡ changed r'
    → IsRefused r r'
unfolding reject
reject-changed d subject r = of-changed (IsRefused r) (
    if_cases (OnChange (IsRefused r)) (not r.pending_approval) (λ _. tt)
      (λ e. record {
        was_pending = ground arith;
        refuses = refl;
        finished = refl;
        not_pending = refl;
        code = refl;
      }))

pub resumed-IsSound : {r r' : RunRecord} → IsResumed r r' → IsSound r'
resumed-IsSound h = record {
  live = λ f. (ap is_live h.runs, h.not_pending);
  waits = λ p. ground (arith, h.not_pending);
  over = λ f. ground (arith, h.unfinished);
  exits = λ f. ground (arith, h.unfinished);
}

pub refused-IsSound : {r r' : RunRecord} → IsRefused r r' → IsSound r'
refused-IsSound h = record {
  live = λ f. ground (arith, h.finished);
  waits = λ p. ground (arith, h.not_pending);
  over = λ f _. ap is_final h.refuses;
  exits = λ f. (pos 1, h.code);
}
