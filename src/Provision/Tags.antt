-- ===== src/Provision/Tags.antt =====
-- internal/provision/tags.go: the names of the resources that the harness creates. The environment
-- and the random bytes are arguments.
use smoke_tester.Prelude.{
  ℕ, ◌+◌, ◌-◌, ◌/◌, ◌%◌, Bool, ◌||◌, List, [], ◌∷◌, ◌++◌, ltb, ◌==◌, if◌then◌else◌, select,
}
use smoke_tester.Prelude.Text.{is_digit, is_upper, is_lower, Text, codes, is_empty, has_prefix}

abbrev pub name_prefix : Text
name_prefix = codes "it-"

-- The runes that `sanitise` keeps.
unfoldable pub is_name_char : ℕ → Bool
is_name_char c = is_lower c || is_upper c || is_digit c || c == b'_' || c == b'-'

unfoldable pub sanitise : Text → Text
unfolding is_name_char select
sanitise s = let kept = select is_name_char s in if is_empty kept then codes "run" else kept

abbrev hex_digit : ℕ → ℕ
hex_digit d = if ltb d 10 then b'0' + d else b'a' + (d - 10)

-- hex.EncodeToString.
unfoldable pub hex : List ℕ → Text
hex [] = []
hex (b ∷ bs) = hex_digit (b / 16) ∷ hex_digit (b % 16) ∷ hex bs

-- What RunID computes once: RUN_ID, or four random bytes.
unfoldable pub run_id : Text → List ℕ → Text
unfolding sanitise hex
run_id env random = if is_empty env then hex random else sanitise env

-- "it-<runID>-".
unfoldable pub run_prefix : Text → Text
run_prefix id = name_prefix ++ (id ++ b'-' ∷ [])

unfoldable pub name : Text → Text → Text
name id suffix = name_prefix ++ (id ++ (b'-' ∷ suffix))

unfoldable pub unique_username : Text → Text → List ℕ → Text
unfolding hex
unique_username id role random = name_prefix ++ (id ++ (b'-' ∷ (role ++ (b'-' ∷ hex random))))

unfoldable pub is_harness_resource : Text → Bool
unfolding has_prefix
is_harness_resource n = has_prefix n name_prefix
