-- ===== src/Runs/Argv.antt =====
-- The command line of a resumed run: _resume_argv (py/src/lg_orch/api/service.py).
use lula.Prelude.{String, Bool, ◌||◌, List, [], ◌∷◌, ◌++◌, str_eq, if◌then◌else◌}
use lula.Prelude.Texts.{is_blank}

pub is_pair_flag : String → Bool
is_pair_flag token = str_eq token "--thread-id" || str_eq token "--checkpoint-id"

-- argv without "--resume", and without the two other flags and what follows each.
pub without_flags : List String → List String
without_flags [] = []
without_flags (t ∷ []) = if str_eq t "--resume" || is_pair_flag t then [] else t ∷ []
without_flags (t ∷ u ∷ rest) =
    let after_one = without_flags (u ∷ rest) in
    let after_two = without_flags rest in
    if str_eq t "--resume" then after_one else if is_pair_flag t then after_two else t ∷ after_one

flag : String → String → List String
flag name value = if is_blank value then [] else name ∷ value ∷ []

pub resume_flags : String → String → List String
unfolding flag
resume_flags thread_id checkpoint_id =
    "--resume" ∷ (flag "--thread-id" thread_id ++ flag "--checkpoint-id" checkpoint_id)

pub resume_argv : String → String → List String → List String
resume_argv thread_id checkpoint_id argv =
    without_flags argv ++ resume_flags thread_id checkpoint_id

-- What a concrete command line computes with.
unfoldable pub argv_parts : Unit {0}
unfolding is_pair_flag without_flags flag resume_flags resume_argv is_blank
argv_parts = tt
