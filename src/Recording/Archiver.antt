-- ===== src/Recording/Archiver.antt =====
-- `Archiver` of internal/recording/archive.go: where the recordings of a run go. The mutex makes
-- `reserve` one step. The file system is a record of the operations that are called.
pub mod Names
use smoke_tester.Prelude.{
  ℕ, zero, suc, ◌+◌, Bool, true, false, not, [], ◌∷◌, ◌++◌, Option, none, some,
}
use smoke_tester.Prelude.Dict.{Dict, lookup, insert}
use smoke_tester.Prelude.Text.{Text}
use smoke_tester.Prelude.Itoa.{itoa}
use smoke_tester.Recording.Sanitize.{sanitize}

pub record Archiver : Type 0 where
  pub base_dir : Text
  pub cleared_test : Dict Bool
  pub used_role : Dict (Dict ℕ)

unfoldable pub new : Text → Archiver
new base_dir = record { base_dir = base_dir; cleared_test = []; used_role = [] }

-- m[k] with Go's zero values.
abbrev pub flag : Option Bool → Bool
flag none = false
flag (some b) = b

abbrev pub count_of : Option ℕ → ℕ
count_of none = 0
count_of (some n) = n

abbrev pub roles_of : Option (Dict ℕ) → Dict ℕ
roles_of none = []
roles_of (some roles) = roles

abbrev pub numbered : Text → ℕ → Text
numbered r zero = r
numbered r (suc n) = r ++ b'-' ∷ itoa (suc n)

-- What `reserve` returns, and whether it wipes the test's folder first.
pub record Reserved : Type 0 where
  pub archiver : Archiver
  pub name : Text
  pub wipes : Bool

unfoldable pub reserve : Archiver → Text → Text → Reserved
unfolding lookup insert
reserve a test role =
    let roles = roles_of (lookup test a.used_role) in
    let r = sanitize role in
    let n = count_of (lookup r roles) in
    record {
      archiver = record a {
        cleared_test = insert test true a.cleared_test;
        used_role = insert test (insert r (n + 1) roles) a.used_role;
      };
      name = numbered r n;
      wipes = not (flag (lookup test a.cleared_test));
    }
