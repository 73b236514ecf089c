-- ===== src/Memory/Facts.antt =====
-- _fact_pack of py/src/lg_orch/memory.py: the facts that a model is told. A fact is its entries that
-- are read, each text being what `str` makes of the entry, and `none` a number that is no int.
pub mod Best
use lula.Prelude.{
  ℕ, String, Bool, true, false, not, ◌&&◌, Option, none, some, List, [], ◌∷◌, str_eq, if◌then◌else◌,
  map, take,
}
use lula.Prelude.Int.{ℤ, pos}
use lula.Prelude.Dicts.{get, put}
use lula.Prelude.Texts.{strip, is_blank, strip_parts}
use lula.Prelude.Ranked.{insert_desc, sort_desc}
use lula.Prelude.Ranked.Keys.{le_int, le_pair}

-- `summary` is `none` where the fact has no such entry, and `kind` is "fact" there.
pub record RawFact : Type 0 where
  pub failure_fingerprint : String
  pub summary : Option String
  pub loop_summary : String
  pub kind : String
  pub loop : Option ℤ
  pub salience : Option ℤ

pub record PackFact : Type 0 where
  pub failure_fingerprint : String
  pub summary : String
  pub kind : String
  pub loop : ℤ
  pub salience : ℤ

int_or_zero : Option ℤ → ℤ
int_or_zero none = pos 0
int_or_zero (some n) = n

text_or : Option String → String → String
text_or none default = default
text_or (some s) default = s

-- The entry of a fact.
pub entry_of : RawFact → PackFact
unfolding int_or_zero text_or
entry_of f = record {
  failure_fingerprint = f.failure_fingerprint;
  summary = strip (text_or f.summary f.loop_summary);
  kind = if is_blank (strip f.kind) then "fact" else strip f.kind;
  loop = int_or_zero f.loop;
  salience = int_or_zero f.salience;
}

-- The first loop: the entries of the facts that have a fingerprint or a summary.
pub normalized : List RawFact → List PackFact
normalized [] = []
normalized (f ∷ fs) =
    let rest = normalized fs in
    if is_blank (strip f.failure_fingerprint) && is_blank (entry_of f).summary
    then rest
    else entry_of f ∷ rest

pub key_of : PackFact → String
key_of f =
    if is_blank (strip f.failure_fingerprint) then strip f.summary else strip f.failure_fingerprint

abbrev pub rank_le : PackFact → PackFact → Bool
rank_le f g = le_pair le_int le_int (f.salience, f.loop) (g.salience, g.loop)

pub recovery_rank : PackFact → ℤ
recovery_rank f = if str_eq (strip f.kind) "recovery_fact" then pos 1 else pos 0

-- The order of the sort.
pub pack_le : PackFact → PackFact → Bool
unfolding recovery_rank
pack_le f g =
    le_pair (le_pair le_int le_int) le_int ((f.salience, f.loop), recovery_rank f)
      ((g.salience, g.loop), recovery_rank g)

pub put_better : PackFact → List (String × PackFact) → Option PackFact → List (String × PackFact)
put_better e d none = put (key_of e) e d
put_better e d (some current) = if rank_le current e then put (key_of e) e d else d

-- The body of the second loop.
pub note_entry : PackFact → List (String × PackFact) → List (String × PackFact)
unfolding put_better
note_entry e d = put_better e d (get (key_of e) d)

pub dedupe : List PackFact → List (String × PackFact) → List (String × PackFact)
dedupe [] d = d
dedupe (e ∷ es) d = dedupe es (note_entry e d)

pub deduped : List RawFact → List (String × PackFact)
deduped facts = dedupe (normalized facts) []

pub fact_pack : List RawFact → List PackFact
fact_pack facts = take 8 (sort_desc pack_le (map (λ p. p.1) (deduped facts)))

-- What packing concrete facts computes with.
unfoldable pub fact_pack_parts : Unit {0}
unfolding strip_parts get put insert_desc sort_desc int_or_zero text_or entry_of normalized key_of
    recovery_rank pack_le put_better note_entry dedupe deduped fact_pack
fact_pack_parts = tt
