-- ===== src/Config/Examples.antt =====
-- Two lines of a file, and an environment that has one of the variables.
use smoke_tester.Prelude.{ℕ, ◌*◌, ◌^◌, ◌≤◌, ◌<◌, ◌≡◌, refl, true, none, some, [], ◌∷◌, ◌++◌, arith}
use smoke_tester.Prelude.Itoa.{itoa}
use smoke_tester.Prelude.Result.{ok, err}
use smoke_tester.Prelude.Dict.{Dict, lookup}
use smoke_tester.Prelude.Text.{Text, ascii, codes, text_eq}
use smoke_tester.Config.{load_dot_env}
use smoke_tester.Config.Knobs.{orphan_ttl, hour}
use smoke_tester.Config.Knobs.Ttl.{ttl_bounds}
use smoke_tester.Config.Parse.{Host}
use smoke_tester.Config.Parse.Why.{Why}
use smoke_tester.Config.DotEnv.{load_dot_env-keeps}

abbrev env : Dict Text
env = (codes "RUN_ID", codes "r1") ∷ []

load_dot_env-keeps_example :
    lookup (codes "RUN_ID") (load_dot_env (codes "RUN_ID=r2" ∷ []) env) ≡ some (codes "r1")
unfolding lookup text_eq
load_dot_env-keeps_example =
    load_dot_env-keeps (codes "RUN_ID=r2" ∷ []) env (codes "RUN_ID") (codes "r1") refl

abbrev host : Host
host = record {
  letters = ascii;
  url_error = λ url. none;
  parse_ip = λ v. some (1 ∷ 2 ∷ 3 ∷ 4 ∷ []);
  read_file = λ kf. err (codes "no such file");
  valid_json = λ b. true;
  repo_root = some (codes "/src");
  join = λ a b. a ++ (codes "/" ++ b);
}

ttl_bounds_example :
    (ttl : ℕ) × (orphan_ttl (itoa 2_562_048) ≡ ok ttl)
    × (2_562_048 ≤ 2_562_047 → (ttl ≡ 2_562_048 * hour) × (ttl < 2 ^ 63))
    × (2_562_047 < 2_562_048 → 2_562_048 ≤ 5_124_095 → 2 ^ 63 ≤ ttl)
ttl_bounds_example = ttl_bounds 2_562_048 (omega arith)
