-- ===== src/Memory/Examples.antt =====
-- A context of two segments under a small budget, and a history with a large file that was read.
use lula.Prelude.Int.{pos}
use lula.Prelude.Ranked.{IsBest}
use lula.Memory.Facts.{RawFact, normalized, deduped, pack_le, fact_pack, fact_pack_parts}
use lula.Memory.Facts.Best.{AllCovered, fact_pack-IsBest}
use lula.Prelude.{ℕ, ◌+◌, ◌≤◌, Option, String, ◌≡◌, refl, true, none, some, List, [], ◌∷◌, map}
use lula.Memory.Fit.{fit_segments, fit_loop, approx_token_count, truncate_text_to_budget, fit_parts}
use lula.Memory.Fit.Bounds.{fit_loop-tokens, total_tokens}
use lula.Prelude.Texts.{append}
use lula.Memory.History.{HistoryState, prune_post_verification_history, history_parts}
use lula.Memory.History.Pruned.{prune_post_idempotent}

abbrev segments : List (String × String)
segments =
    ("task", "repair the parser")
    ∷ ("notes", "the lexer was changed last week, and the parser was not")
    ∷ []

fitted : (fit_segments 10 segments).0 ≡ "[task]\nrepair the parser\n\n[notes]\nthe lexe"
unfolding fit_parts
fitted = refl

fit_loop-tokens_example :
    total_tokens (fit_loop segments (record { remaining = 10; chunks = []; decisions = [] })).chunks
    ≤ 10 + 3
fit_loop-tokens_example = fit_loop-tokens 10 segments

abbrev long_text : String
long_text =
    "0123456789012345678901234567890123456789012345678901234567890123456789012345678901234567890123456789"

-- A budget of 17 tokens is overrun by 3.
overrun : approx_token_count (truncate_text_to_budget 17 long_text).0 ≡ 20
unfolding fit_parts
overrun = refl

abbrev history : HistoryState
history = record {
  policy = record {
    schema_version = 1;
    retain_recent_tool_results = 5;
    read_file_prune_threshold_chars = 200;
  };
  tool_results =
      record {
        tool = "read_file";
        ok = true;
        stdout = some (append long_text long_text);
        path = some "a.py";
        pruned = none;
      }
      ∷ record { tool = "apply_patch"; ok = true; stdout = none; path = none; pruned = none }
      ∷ [];
  provenance = [];
  verified = true;
}

abbrev digest : String → String
digest s = "ff"

abbrev number : ℕ → String
number n = "200"

evicts :
    (prune_post_verification_history digest number history).tool_results
    ≡ record {
      tool = "read_file";
      ok = true;
      stdout = some "[pruned_read_file_payload] chars=200 sha256=ff";
      path = some "a.py";
      pruned = some (200, "ff");
    }
      ∷ record { tool = "apply_patch"; ok = true; stdout = none; path = none; pruned = none }
      ∷ []
unfolding history_parts
evicts = refl

prune_post_idempotent_example :
    prune_post_verification_history digest number
      (prune_post_verification_history digest number history)
    ≡ prune_post_verification_history digest number history
prune_post_idempotent_example = prune_post_idempotent digest number history

abbrev raw : String → Option String → ℕ → RawFact
raw fingerprint summary salience = record {
  failure_fingerprint = fingerprint;
  summary = summary;
  loop_summary = "";
  kind = "recovery_fact";
  loop = none;
  salience = some (pos salience);
}

abbrev facts : List RawFact
facts =
    raw "f1" (some "first") 6
    ∷ raw "" none 9
    ∷ raw "f2" (some "other") 8
    ∷ raw "f1" (some "second") 6
    ∷ []

packed : map (λ f. f.summary) (fact_pack facts) ≡ "other" ∷ "second" ∷ []
unfolding fact_pack_parts
packed = refl

fact_pack-IsBest_example :
    IsBest pack_le 8 (map (λ p. p.1) (deduped facts)) (fact_pack facts)
    × AllCovered (normalized facts) (deduped facts)
fact_pack-IsBest_example = fact_pack-IsBest facts
