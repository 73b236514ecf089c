-- ===== src/Runs/Threads.antt =====
-- The threads that change the record of one run (py/src/lg_orch/api/service.py), step by step. Each
-- process that was spawned has a thread that captures its output and then runs _mark_finished, which
-- takes `_lock` twice. Requests of the API may come at any time.
use lula.Prelude.{
  ℕ, suc, String, ◌≡◌, true, false, Option, none, List, [], ◌∷◌, ◌++◌, if◌then◌else◌,
}
use lula.Prelude.Int.{ℤ}
use lula.Runs.Trace.{no_details, ApprovalState}
use lula.Runs.{
  RunRecord, running, TraceReading, Decision, changed, refresh, finish, apply_approval_state,
  cancel_run, approve, reject,
}

-- `capturing` threads have not reached _mark_finished, and `applying` ones are between its two locks.
pub record World : Type 0 where
  pub run : RunRecord
  pub capturing : ℕ
  pub applying : ℕ

-- The record that create_run makes, with its process spawned.
unfoldable pub created : List String → String → String → RunRecord
created argv thread_id checkpoint_id = record {
  argv = argv;
  has_process = true;
  status = running;
  finished = false;
  exit_code = none;
  logs = [];
  cancel_requested = false;
  thread_id = thread_id;
  checkpoint_id = checkpoint_id;
  pending_approval = false;
  pending_approval_summary = "";
  pending_approval_details = no_details;
  approval_history = [];
  final = "";
}

unfoldable pub start : RunRecord → World
start r = record { run = r; capturing = 1; applying = 0 }

-- The first lock of _mark_finished, in one of `n` more capturing threads.
unfoldable pub mark_finished : ℕ → ℤ → World → World
mark_finished n code w =
    if w.run.finished
    then record w { capturing = n }
    else record { run = finish code w.run; capturing = n; applying = suc w.applying }

-- _append_log
unfoldable pub append_log : String → World → World
append_log line w = let r = w.run in record w { run = record r { logs = r.logs ++ line ∷ [] } }

pub data Step : World → World → Type 0 where
  -- get_run, list_runs, get_logs or the stream reads the record.
  reads :
      (w : World) (poll : Option ℤ) (t : TraceReading)
      → Step w (record w { run = refresh poll t w.run })
  logs : (w : World) (line : String) → Step w (append_log line w)
  marks : (w : World) (n : ℕ) (code : ℤ) → w.capturing ≡ suc n → Step w (mark_finished n code w)
  applies :
      (w : World) (n : ℕ) (a : ApprovalState)
      → w.applying ≡ suc n
      → Step w (record w { run = apply_approval_state a w.run; applying = n })
  cancels :
      (w : World) (poll : Option ℤ) (t : TraceReading)
      → Step w (record w { run = cancel_run poll t w.run })
  approves :
      (w : World) (poll : Option ℤ) (t : TraceReading) (d : Decision) (subject : String)
      (r : RunRecord)
      → approve d subject (refresh poll t w.run) ≡ changed r
      → Step w (record w { run = r; capturing = suc w.capturing })
  rejects :
      (w : World) (poll : Option ℤ) (t : TraceReading) (d : Decision) (subject : String)
      (r : RunRecord)
      → reject d subject (refresh poll t w.run) ≡ changed r
      → Step w (record w { run = r })

pub data Reach (w : World) : World → Type 0 where
  here : Reach w w
  next : {v u : World} → Reach w v → Step v u → Reach w u
