-- ===== src/Config/Root.antt =====
-- internal/config/config.go: the walks up from the working directory, and Load. An absolute
-- directory is the list of its names, the innermost first; the root is the empty list and its own
-- parent.
use smoke_tester.Prelude.{Bool, Option, none, some, List, [], ◌∷◌, if◌then◌else◌}
use smoke_tester.Config.{load_dot_env}
use smoke_tester.Config.Knobs.{ParseError}
use smoke_tester.Config.Parse.{Host, parse}
use smoke_tester.Config.Settings.{Settings}
use smoke_tester.Prelude.Dict.{Dict}
use smoke_tester.Prelude.Result.{Result}
use smoke_tester.Prelude.Text.{Text, codes}

abbrev pub Dir : Type 0
Dir = List Text

-- The first directory of the walk in which there is a file of that name. `is_file` is os.Stat.
unfoldable pub find_up : (Dir → Text → Bool) → Text → Dir → Option Dir
find_up is_file name [] = if is_file [] name then some [] else none
find_up is_file name (d ∷ ds) =
    if is_file (d ∷ ds) name then some (d ∷ ds) else find_up is_file name ds

find_from : (Dir → Text → Bool) → Text → Option Dir → Option Dir
unfolding find_up
find_from is_file name none = none
find_from is_file name (some cwd) = find_up is_file name cwd

-- `none` is a failure of os.Getwd.
unfoldable pub find_dot_env : (Dir → Text → Bool) → Option Dir → Option Dir
unfolding find_from
find_dot_env is_file cwd = find_from is_file (codes ".env") cwd

unfoldable pub find_repo_root : (Dir → Text → Bool) → Option Dir → Option Dir
unfolding find_from
find_repo_root is_file cwd = find_from is_file (codes "go.mod") cwd

with_file : (Dir → List Text) → Option Dir → Dict Text → Dict Text
unfolding load_dot_env
with_file lines none env = env
with_file lines (some dir) env = load_dot_env (lines dir) env

-- The first call of Load: the lines are those that could be read of the .env file of a directory.
unfoldable pub load :
    Host
    → (Dir → Text → Bool)
    → Option Dir
    → (Dir → List Text)
    → Dict Text
    → Result ParseError Settings
unfolding parse find_dot_env with_file
load h is_file cwd lines env = parse h (with_file lines (find_dot_env is_file cwd) env)
