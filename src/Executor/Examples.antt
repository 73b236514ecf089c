-- ===== src/Executor/Examples.antt =====
-- A plan with one patch, for a runner that answers nothing.
use lula.Prelude.{◌≡◌, ◌≤◌, refl, String, false, none, some, List, [], ◌∷◌, arith, str_eq}
use lula.Tokens.{no_dict, Signer}
use lula.Executor.Payload.{change, Approvals}
use lula.Executor.{ToolCall, Env, ExecState, execute, executor_parts}
use lula.Executor.Limits.{execute-used}

abbrev signer : Signer
signer = record { secret = ""; iat = "1"; nonce = "ab"; digest = λ secret message. "ff" }

abbrev nothing : Approvals
nothing = record { by_tool = []; mutations = none }

abbrev env : Env
env = record {
  max_tool_calls = 2;
  max_patch_bytes = 100;
  require_approval = false;
  allowed_write_paths = "src/a.py" ∷ [];
  approvals = nothing;
  resumed = nothing;
  signer = signer;
  fnmatch = λ path pattern. str_eq path pattern;
  json_size = λ input. 10;
  run_batch = λ calls. some [];
  search = λ pattern text. false;
  input_text = λ input. "";
  result_text = λ r. "";
}

abbrev edit : String → ToolCall
edit path = record {
  tool = "apply_patch";
  input = record {
    patch = none;
    changes = some (change (some path) (some "x = 1") none ∷ []);
    approval = no_dict;
  };
}

abbrev start : ExecState
start = record {
  results = [];
  tool_calls_used = 0;
  auditor = none;
  checkpoint = record {
    thread_id = none;
    checkpoint_ns = none;
    latest_checkpoint_id = none;
    run_id = none;
    latest_snapshot_id = none;
  };
  scip_index_stale = false;
  stop = false;
  sent = [];
}

abbrev plan : List (List ToolCall)
plan = (edit "src\\a.py" ∷ []) ∷ (edit "etc/b" ∷ []) ∷ (edit "src/a.py" ∷ []) ∷ []

-- The second step is denied, and the third does not run.
one_sent : (execute env plan start).tool_calls_used ≡ 1
unfolding executor_parts
one_sent = refl

execute-used_example : (execute env plan start).tool_calls_used ≤ 2
execute-used_example = execute-used env plan start (omega arith) (omega arith)
