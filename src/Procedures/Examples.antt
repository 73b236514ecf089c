-- ===== src/Procedures/Examples.antt =====
-- A table with one procedure, stored again with other steps.
use lula.Prelude.{String, ◌≡◌, refl, Option, some, List, [], ◌∷◌}
use lula.Procedures.{
  Row, canonical_procedure_name, canonical_request_hash, id_of, lookup_procedure, store_procedure,
  procedures_parts,
}
use lula.Procedures.Stored.{uses_of, lookup-store_procedure}

-- A digest that tells the texts below apart, and steps that are texts.
abbrev digest : String → String
digest s = s

abbrev lower : String → String
lower s = s

abbrev dumps : String → String
dumps s = s

abbrev loads : String → Option String
loads s = some s

abbrev name : String
name = "read_file"

abbrev table : List Row
table =
    record {
      procedure_id = "read_file|fix it";
      canonical_name = "read_file";
      request_hash = "fix it";
      task_class = "debug";
      steps_json = "old";
      verification_json = "none";
      use_count = 2;
      last_used_at = some "monday";
      created_at = "sunday";
    }
    ∷ []

named : canonical_procedure_name ("read_file" ∷ "exec" ∷ "read_file" ∷ []) ≡ "read_file_exec"
unfolding procedures_parts
named = refl

hashed : canonical_request_hash digest lower " fix   it" ≡ "fix it"
unfolding procedures_parts
hashed = refl

lookup-store_procedure_example :
    lookup_procedure digest lower dumps loads "fix it" name 3
      (store_procedure digest lower dumps loads name "fix it" "repair" "new" "tests" "today" table)
    ≡ record {
      procedure_id = id_of digest lower name (canonical_request_hash digest lower "fix it");
      canonical_name = name;
      task_class = "repair";
      steps = "new";
      verification = "tests";
      use_count =
          (uses_of
            (id_of digest lower name (canonical_request_hash digest lower "fix it"))
            table).0;
      last_used_at =
          (uses_of
            (id_of digest lower name (canonical_request_hash digest lower "fix it"))
            table).1;
      created_at = "today";
    }
      ∷ []
unfolding procedures_parts
lookup-store_procedure_example =
    lookup-store_procedure digest lower dumps loads name "fix it" "repair" "new" "tests" "today" 2
      table (λ j. refl) refl (refl, tt) (λ e. tt, tt)
