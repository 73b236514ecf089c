-- ===== src/Healing/Commands.antt =====
-- The test command of the healing loop: the choice of a runner by the files of a repository, and the
-- allowlist. The file system, `shlex.split` (`none` is its ValueError) and `os.path.basename` are
-- parameters.
use lula.Prelude.{String, Bool, false, ◌||◌, Option, none, some, List, [], ◌∷◌, if◌then◌else◌}
use lula.Prelude.Members.{contains}

abbrev pub allowed_test_commands : List String
allowed_test_commands = "pytest" ∷ "python" ∷ "uv" ∷ "npm" ∷ "yarn" ∷ "cargo" ∷ "make" ∷ "go" ∷ []

-- Both branches on the scripts of a package.json choose npm.
pub detect_test_runner : (String → Bool) → String
detect_test_runner exists =
    if exists "Cargo.toml"
    then "cargo test --all"
    else if exists "package.json"
    then "npm test"
    else if exists "go.mod"
    then "go test ./..."
    else if exists "pyproject.toml" || exists "pytest.ini" || exists "setup.cfg"
    then "python -m pytest"
    else if exists "Makefile"
    then "make test"
    else "python -m pytest"

allows_words : (String → String) → Option (List String) → Bool
allows_words basename none = false
allows_words basename (some []) = false
allows_words basename (some (w ∷ ws)) = contains (basename w) allowed_test_commands

pub validate_test_command : (String → Option (List String)) → (String → String) → String → Bool
unfolding allows_words
validate_test_command split basename cmd = allows_words basename (split cmd)
