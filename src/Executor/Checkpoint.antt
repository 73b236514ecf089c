-- ===== src/Executor/Checkpoint.antt =====
-- The executor's record of checkpoints (py/src/lg_orch/nodes/executor.py), from the "snapshot" and
-- "undo" entries of the runner's results.
use lula.Prelude.{String, Option, none, some, List, [], ◌∷◌}
use lula.Tokens.{non_empty_str, tokens_parts}

pub record CheckpointState : Type 0 where
  pub thread_id : Option String
  pub checkpoint_ns : Option String
  pub latest_checkpoint_id : Option String
  pub run_id : Option String
  pub latest_snapshot_id : Option String

-- A "checkpoint" dict; an entry that is no text is `none`.
pub record CheckpointMeta : Type 0 where
  pub thread_id : Option String
  pub checkpoint_ns : Option String
  pub checkpoint_id : Option String
  pub run_id : Option String

pub record SnapshotMeta : Type 0 where
  pub checkpoint : Option CheckpointMeta
  pub snapshot_id : Option String

pub record UndoMeta : Type 0 where
  pub restored_snapshot_id : Option String
  pub checkpoint : Option CheckpointMeta

-- The new entry if there is one, and the old one otherwise.
pub or_old : Option String → Option String → Option String
or_old none old = old
or_old (some s) old = some s

note_checkpoint : Option CheckpointMeta → CheckpointState → CheckpointState
note_checkpoint none s = s
note_checkpoint (some c) s = record s {
  thread_id = or_old (non_empty_str c.thread_id) s.thread_id;
  checkpoint_ns = or_old c.checkpoint_ns s.checkpoint_ns;
  latest_checkpoint_id = or_old (non_empty_str c.checkpoint_id) s.latest_checkpoint_id;
  run_id = or_old (non_empty_str c.run_id) s.run_id;
}

pub note_snapshot : Option SnapshotMeta → CheckpointState → CheckpointState
unfolding note_checkpoint or_old
note_snapshot none s = s
note_snapshot (some m) s =
    let s' = note_checkpoint m.checkpoint s in
    record s' { latest_snapshot_id = or_old (non_empty_str m.snapshot_id) s'.latest_snapshot_id }

restored_id : Option CheckpointMeta → Option String
restored_id none = none
restored_id (some c) = non_empty_str c.checkpoint_id

pub note_undo : Option UndoMeta → CheckpointState → CheckpointState
unfolding restored_id or_old
note_undo none s = s
note_undo (some u) s = record s {
  latest_snapshot_id = or_old (non_empty_str u.restored_snapshot_id) s.latest_snapshot_id;
  latest_checkpoint_id = or_old (restored_id u.checkpoint) s.latest_checkpoint_id;
}

-- The loop over the results of a batch, of which the first two arguments give the two entries.
pub note_results {ℓ} :
    {R : Type ℓ}
    → (R → Option SnapshotMeta)
    → (R → Option UndoMeta)
    → List R
    → CheckpointState
    → CheckpointState
note_results snapshot undo [] s = s
note_results snapshot undo (r ∷ rs) s =
    note_results snapshot undo rs (note_undo (undo r) (note_snapshot (snapshot r) s))

-- What noting concrete results computes with.
unfoldable pub checkpoint_parts : Unit {0}
unfolding tokens_parts or_old note_checkpoint note_snapshot restored_id note_undo note_results
checkpoint_parts = tt
