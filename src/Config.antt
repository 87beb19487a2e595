-- ===== src/Config.antt =====
-- internal/config/config.go: reading the .env file. The lines are those of bufio.Scanner.
pub mod DotEnv
pub mod Knobs
pub mod Settings
pub mod Parse
pub mod Root
mod Examples
use smoke_tester.Prelude.{ℕ, Bool, ◌||◌, Option, none, some, List, [], ◌∷◌, ◌==◌, if◌then◌else◌}
use smoke_tester.Prelude.Dict.{Dict, lookup, insert}
use smoke_tester.Prelude.Text.{Text, is_empty, trim, trim_space, cut, has_prefix, contains}

-- os.Setenv, which refuses an empty name, a name with `=` or NUL in it, and a value with NUL.
unfoldable pub set_env : Text → Text → Dict Text → Dict Text
unfolding contains insert
set_env k v env =
    if is_empty k || contains k b'=' || contains k 0 || contains v 0 then env else insert k v env

abbrev pub is_quote : ℕ → Bool
is_quote c = c == b'"' || c == b'\''

-- The key and the value of a line, if it is an assignment.
abbrev pub trimmed_pair : Option (Text × Text) → Option (Text × Text)
trimmed_pair none = none
trimmed_pair (some (k, v)) = some (trim_space k, trim is_quote (trim_space v))

unfoldable pub parse_line : Text → Option (Text × Text)
unfolding has_prefix cut trim trim_space
parse_line text =
    let line = trim_space text in
    if is_empty line || has_prefix line (b'#' ∷ []) then none else trimmed_pair (cut b'=' line)

-- A variable that is set is not overridden.
unfoldable pub set_if_absent : Option Text → Text → Text → Dict Text → Dict Text
unfolding set_env
set_if_absent (some _) k v env = env
set_if_absent none k v env = set_env k v env

unfoldable pub assign : Option (Text × Text) → Dict Text → Dict Text
unfolding set_if_absent lookup
assign none env = env
assign (some (k, v)) env = set_if_absent (lookup k env) k v env

-- The loop of loadDotEnv.
unfoldable pub load_dot_env : List Text → Dict Text → Dict Text
unfolding assign parse_line
load_dot_env [] env = env
load_dot_env (line ∷ lines) env = load_dot_env lines (assign (parse_line line) env)

unfoldable pub first_non_empty : Text → Text → Text
first_non_empty a b = if is_empty a then b else a
