-- ===== src/Memory/Fit.antt =====
-- The token budget of a context (py/src/lg_orch/memory.py): approx_token_count,
-- _truncate_text_to_budget, _fit_segments and _compression_pressure. A negative budget acts as 0 does.
pub mod Bounds
use Prim.Native.String.{[] as ε, ◌∷◌ as ◌▸◌}
use lula.Prelude.{
  ℕ, zero, suc, ◌+◌, ◌-◌, ◌*◌, ◌/◌, max, String, Bool, true, false, not, List, [], ◌∷◌, ◌++◌, leb,
  ◌==◌, if◌then◌else◌, keep, count_if,
}
use lula.Prelude.Texts.{strip, lstrip, rstrip, is_blank, append, strip_parts}

-- len(text)
unfoldable pub char_count : String → ℕ
char_count ε = 0
char_count (c ▸ s) = suc (char_count s)

-- text[:n]
unfoldable pub take_chars : ℕ → String → String
take_chars zero s = ε
take_chars (suc n) ε = ε
take_chars (suc n) (c ▸ s) = c ▸ take_chars n s

-- text[n:]
unfoldable pub drop_chars : ℕ → String → String
drop_chars zero s = s
drop_chars (suc n) ε = ε
drop_chars (suc n) (c ▸ s) = drop_chars n s

-- text[-n:], for n of at least 1
pub last_chars : ℕ → String → String
last_chars n s = drop_chars (char_count s - n) s

pub approx_token_count : String → ℕ
approx_token_count s = if is_blank s then 0 else max 1 ((char_count s + 3) / 4)

abbrev pub marker : String
marker = "\n...[compressed]...\n"

pub head_chars : ℕ → ℕ
head_chars max_chars = max ((max_chars - 20) * 2 / 3) 40

pub tail_chars : ℕ → ℕ
tail_chars max_chars = max (max_chars - 20 - head_chars max_chars) 20

-- The text with its middle cut out.
pub cut_middle : ℕ → String → String
cut_middle max_chars s =
    append (rstrip (take_chars (head_chars max_chars) s))
      (append marker (lstrip (last_chars (tail_chars max_chars) s)))

-- The text that is left, and whether it was cut.
pub truncate_text_to_budget : ℕ → String → String × Bool
truncate_text_to_budget budget_tokens s =
    if budget_tokens == 0
    then (ε, true)
    else if leb (char_count s) (budget_tokens * 4)
    then (s, false)
    else if leb (budget_tokens * 4) 64
    then (rstrip (take_chars (budget_tokens * 4) s), true)
    else (cut_middle (budget_tokens * 4) s, true)

pub data Action : Type 0 where
  compressed kept dropped : Action

pub record Decision : Type 0 where
  pub segment : String
  pub action : Action
  pub tokens_before : ℕ
  pub tokens_after : ℕ

pub record Fitted : Type 0 where
  pub remaining : ℕ
  pub chunks : List String
  pub decisions : List Decision

-- The block of a segment.
pub block_of : String → String → String
block_of label text = strip (append "[" (append label (append "]\n" text)))

decided : String → String → String × Bool → Fitted → Fitted
decided label block (text, cut) f = record {
  remaining = f.remaining - approx_token_count text;
  chunks = if is_blank (strip text) then f.chunks else f.chunks ++ text ∷ [];
  decisions =
      f.decisions
      ++ record {
        segment = label;
        action = if cut then compressed else kept;
        tokens_before = approx_token_count block;
        tokens_after = approx_token_count text;
      }
        ∷ [];
}

-- What a block that is not blank does to the loop.
fit_block : String → String → Fitted → Fitted
unfolding decided
fit_block label block f =
    if f.remaining == 0
    then record f {
      decisions =
          f.decisions
          ++ record {
            segment = label;
            action = dropped;
            tokens_before = approx_token_count block;
            tokens_after = 0;
          }
            ∷ [];
    }
    else if leb (approx_token_count block) f.remaining
    then record f {
      remaining = f.remaining - approx_token_count block;
      chunks = f.chunks ++ block ∷ [];
    }
    else decided label block (truncate_text_to_budget f.remaining block) f

-- The loop of _fit_segments.
pub fit_loop : List (String × String) → Fitted → Fitted
unfolding fit_block
fit_loop [] f = f
fit_loop ((label, text) ∷ rest) f =
    fit_loop rest (if is_blank (strip text) then f else fit_block label (block_of label text) f)

pub join_chunks : List String → String
join_chunks [] = ε
join_chunks (c ∷ []) = c
join_chunks (c ∷ d ∷ rest) = append c (append "\n\n" (join_chunks (d ∷ rest)))

pub fit_segments : ℕ → List (String × String) → String × List Decision
fit_segments budget_tokens segments =
    let f = fit_loop segments (record { remaining = budget_tokens; chunks = []; decisions = [] }) in
    (strip (join_chunks (keep (λ c. not (is_blank (strip c))) f.chunks)), f.decisions)

abbrev is_compressed : Action → Bool
is_compressed a = elim a [ compressed ↦ true | kept ↦ false | dropped ↦ false ]

abbrev is_dropped : Action → Bool
is_dropped a = elim a [ compressed ↦ false | kept ↦ false | dropped ↦ true ]

abbrev is_kept : Action → Bool
is_kept a = elim a [ compressed ↦ false | kept ↦ true | dropped ↦ false ]

pub record Pressure : Type 0 where
  pub compressed_segments : ℕ
  pub dropped_segments : ℕ
  pub kept_segments : ℕ
  pub score : ℕ

pub compression_pressure : List Decision → Pressure
compression_pressure ds =
    let compressions = count_if (λ d. is_compressed d.action) ds in
    let drops = count_if (λ d. is_dropped d.action) ds in
    record {
      compressed_segments = compressions;
      dropped_segments = drops;
      kept_segments = count_if (λ d. is_kept d.action) ds;
      score = compressions + drops * 2;
    }

-- What fitting concrete segments computes with.
unfoldable pub fit_parts : Unit {0}
unfolding strip_parts append char_count take_chars drop_chars last_chars approx_token_count
    head_chars tail_chars cut_middle truncate_text_to_budget block_of decided fit_block fit_loop
    join_chunks fit_segments compression_pressure keep count_if
fit_parts = tt
