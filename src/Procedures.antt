-- ===== src/Procedures.antt =====
-- py/src/lg_orch/procedure_cache.py: the table of verified procedures, a list of rows in the order of
-- insertion, and its SQL statements. Rows of the same use_count are read in that order, which SQL
-- leaves open. SHA-256, str.lower and json are parameters.
pub mod Stored
mod Examples
use Prim.Native.Char.{code}
use Prim.Native.String.{[] as ε, ◌∷◌ as ◌▸◌}
use lula.Prelude.{
  ℕ, zero, suc, String, Bool, true, false, not, ◌&&◌, Option, none, some, List, [], ◌∷◌, ◌++◌,
  str_eq, leb, if◌then◌else◌, keep, map, take,
}
use lula.Prelude.Members.{contains}
use lula.Prelude.Texts.{strip, is_blank, append, is_space, prepend, strip_parts}
use lula.Prelude.Ranked.{insert_desc, sort_desc}
use lula.Memory.Fit.{take_chars}
use lula.Verifier.{join, verifier_parts}

pub record Row : Type 0 where
  pub procedure_id : String
  pub canonical_name : String
  pub request_hash : String
  pub task_class : String
  pub steps_json : String
  pub verification_json : String
  pub use_count : ℕ
  pub last_used_at : Option String
  pub created_at : String

-- text.split(): the pieces between white space, the empty ones left out.
split_space : String → List String
split_space ε = ε ∷ []
split_space (c ▸ s) =
    let rest = split_space s in if is_space (code c) then ε ∷ rest else prepend c rest

pub words : String → List String
unfolding split_space
words s = keep (λ w. not (is_blank w)) (split_space s)

-- ON CONFLICT DO UPDATE
pub updated : Row → Row → Row
updated new old = record old {
  steps_json = new.steps_json;
  verification_json = new.verification_json;
  task_class = new.task_class;
  created_at = new.created_at;
}

-- The INSERT statement.
pub upsert : Row → List Row → List Row
unfolding updated
upsert new [] = new ∷ []
upsert new (r ∷ rs) =
    let rest = upsert new rs in
    if str_eq r.procedure_id new.procedure_id then updated new r ∷ rs else r ∷ rest

pub record Procedure (J : Type 0) : Type 0 where
  pub procedure_id : String
  pub canonical_name : String
  pub task_class : String
  pub steps : J
  pub verification : J
  pub use_count : ℕ
  pub last_used_at : Option String
  pub created_at : String

-- "_".join(tool_names[:4]); the steps are the names of the tools they call.
collect_names : List String → List String → List String
collect_names [] names = names
collect_names (tool ∷ tools) names =
    let name = strip tool in
    collect_names tools
      (if is_blank name then names else (if contains name names then names else names ++ name ∷ []))

name_or_unnamed : List String → String
name_or_unnamed [] = "unnamed_procedure"
name_or_unnamed (n ∷ ns) = join "_" (take 4 (n ∷ ns))

-- _canonical_procedure_name
pub canonical_procedure_name : List String → String
unfolding collect_names name_or_unnamed
canonical_procedure_name tools = name_or_unnamed (collect_names tools [])

-- record_use
pub record_use : String → String → List Row → List Row
record_use id used_at rows =
    map
      (λ r.
        if str_eq r.procedure_id id
        then record r { use_count = suc r.use_count; last_used_at = some used_at }
        else r)
      rows

abbrev pub use_le : Row → Row → Bool
use_le r s = leb r.use_count s.use_count

-- list_procedures
pub list_procedures : ℕ → List Row → List Row
list_procedures limit rows = take limit (sort_desc use_le rows)

module _ (digest lower : String → String) where
  pub canonical_request_hash : String → String
  canonical_request_hash request = take_chars 32 (digest (join " " (words (lower request))))

  pub id_of : String → String → String
  id_of canonical_name request_hash =
      take_chars 24 (digest (append canonical_name (append "|" request_hash)))

  module _ {J : Type 0} (dumps : J → String) (loads : String → Option J) where
    -- The row that store_procedure inserts.
    pub row_of : String → String → String → J → J → String → Row
    row_of canonical_name request task_class steps verification created_at =
        let hash = canonical_request_hash request in
        record {
          procedure_id = id_of canonical_name hash;
          canonical_name = canonical_name;
          request_hash = hash;
          task_class = task_class;
          steps_json = dumps steps;
          verification_json = dumps verification;
          use_count = 0;
          last_used_at = none;
          created_at = created_at;
        }

    pub store_procedure : String → String → String → J → J → String → List Row → List Row
    store_procedure canonical_name request task_class steps verification created_at rows =
        upsert (row_of canonical_name request task_class steps verification created_at) rows

    pub loaded : Row → Option J → Option J → List (Procedure J)
    loaded r none verification = []
    loaded r (some steps) none = []
    loaded r (some steps) (some verification) =
        record {
          procedure_id = r.procedure_id;
          canonical_name = r.canonical_name;
          task_class = r.task_class;
          steps = steps;
          verification = verification;
          use_count = r.use_count;
          last_used_at = r.last_used_at;
          created_at = r.created_at;
        }
        ∷ []

    pub load_rows : List Row → List (Procedure J)
    unfolding loaded
    load_rows [] = []
    load_rows (r ∷ rs) = loaded r (loads r.steps_json) (loads r.verification_json) ++ load_rows rs

    -- The WHERE clause.
    pub matches : String → String → Row → Bool
    matches request_hash canonical_name r =
        str_eq r.request_hash request_hash
        && (if is_blank canonical_name then true else str_eq r.canonical_name canonical_name)

    pub lookup_procedure : String → String → ℕ → List Row → List (Procedure J)
    lookup_procedure request canonical_name limit rows = load_rows (
        take limit
          (sort_desc use_le (keep (matches (canonical_request_hash request) canonical_name) rows)))

-- What a concrete table computes with.
unfoldable pub procedures_parts : Unit {0}
unfolding strip_parts verifier_parts split_space words updated upsert collect_names name_or_unnamed
    canonical_procedure_name record_use list_procedures canonical_request_hash id_of row_of
    store_procedure loaded load_rows matches lookup_procedure insert_desc sort_desc keep contains
    is_space prepend
procedures_parts = tt
