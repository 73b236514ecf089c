-- ===== src/Memory/History.antt =====
-- The history of tool results (py/src/lg_orch/memory.py): ensure_history_policy,
-- prune_pre_verification_history and prune_post_verification_history. `digest` is the SHA-256 of a
-- text, and `number` prints a count. The raw policy is its two entries, and the state its fields that
-- these functions read or write. Each function begins with ensure_history_policy: `policy` is the
-- normalised one, and entries of the lists that are no dicts are gone.
pub mod Pruned
use Prim.Native.String.{[] as ε, ◌∷◌ as ◌▸◌}
use Prim.Native.Char.{code}
use lula.Prelude.{
  ℕ, zero, suc, ◌-◌, String, Bool, true, false, not, ◌&&◌, Option, none, some, List, [], ◌∷◌, ◌++◌,
  str_eq, leb, ◌==◌, if◌then◌else◌, length, any, last_n,
}
use lula.Prelude.Texts.{strip, append, strip_parts}
use lula.Memory.Fit.{char_count}
use lula.Memory.Settings.{Setting, integer, HistoryPolicy, normalize_history_policy}

-- A tool result: `stdout` is `none` where it is no text, `pruned` is artifacts["pruned"].
pub record ToolResult : Type 0 where
  pub tool : String
  pub ok : Bool
  pub stdout : Option String
  pub path : Option String
  pub pruned : Option (ℕ × String)

pub data Event : Type 0 where
  tool_result_window_trim : (dropped kept : ℕ) → Event
  read_file_payload_evicted :
      (tool_index : ℕ) (path : Option String) (chars : ℕ) (digest : String) → Event
  other : Event

pub record HistoryState : Type 0 where
  pub policy : HistoryPolicy
  pub tool_results : List ToolResult
  pub provenance : List Event
  -- bool(verification["ok"]), false where there is no verification.
  pub verified : Bool

-- ensure_history_policy, on the state's raw policy.
pub ensure_history_policy : Setting → Setting → HistoryState → HistoryState
ensure_history_policy retain threshold s = record s {
  policy = normalize_history_policy retain threshold;
}

pub prune_pre_verification_history : HistoryState → HistoryState
prune_pre_verification_history s =
    let retain = s.policy.retain_recent_tool_results in
    if leb (length s.tool_results) retain then s else record s {
      tool_results = last_n retain s.tool_results;
      provenance =
          s.provenance ++ tool_result_window_trim (length s.tool_results - retain) retain ∷ [];
    }

abbrev pub pruned_prefix : String
pruned_prefix = "[pruned_read_file_payload]"

-- s.startswith(prefix)
unfoldable pub starts_with : String → String → Bool
starts_with s ε = true
starts_with ε (d ▸ prefix) = false
starts_with (c ▸ s) (d ▸ prefix) = code c == code d && starts_with s prefix

is_applied : ToolResult → Bool
is_applied r = str_eq (strip r.tool) "apply_patch" && r.ok

-- The text to evict, if the result is to be pruned.
pub evicted_text : ℕ → ToolResult → Option String
evicted_text threshold r = elim r.stdout [
  | none ↦ none
  | some stdout ↦
      if str_eq (strip r.tool) "read_file"
        && leb threshold (char_count stdout)
        && not (starts_with stdout pruned_prefix)
      then some stdout
      else none
]

module _ (digest : String → String) (number : ℕ → String) where
  compact : ToolResult → Option String → ToolResult
  compact r none = r
  compact r (some stdout) = record r {
    stdout = some (
        append pruned_prefix (
          append " chars="
            (append (number (char_count stdout)) (append " sha256=" (digest stdout)))));
    pruned = some (char_count stdout, digest stdout);
  }

  note : ℕ → ToolResult → Option String → List Event
  note index r none = []
  note index r (some stdout) =
      read_file_payload_evicted index r.path (char_count stdout) (digest stdout) ∷ []

  -- The loop over the results: the new ones, and the events of those that are pruned.
  pub prune_loop : ℕ → ℕ → List ToolResult → List ToolResult × List Event
  unfolding compact note
  prune_loop threshold index [] = ([], [])
  prune_loop threshold index (r ∷ rs) =
      let (results, events) = prune_loop threshold (suc index) rs in
      let text = evicted_text threshold r in (compact r text ∷ results, note index r text ++ events)

  pub prune_results : HistoryState → HistoryState
  prune_results s =
      let (results, events) =
        prune_loop s.policy.read_file_prune_threshold_chars 0 s.tool_results in
      record s { tool_results = results; provenance = s.provenance ++ events }

  pub prune_post_verification_history : HistoryState → HistoryState
  unfolding is_applied
  prune_post_verification_history s =
      if s.verified && any is_applied s.tool_results then prune_results s else s

-- What pruning a concrete history computes with.
unfoldable pub history_parts : Unit {0}
unfolding strip_parts append char_count starts_with is_applied evicted_text compact note prune_loop
    prune_results prune_post_verification_history prune_pre_verification_history any
history_parts = tt
