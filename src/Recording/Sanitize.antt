-- ===== src/Recording/Sanitize.antt =====
-- `sanitize` of internal/recording/archive.go, on the text's code points: any name becomes one
-- path segment. The path separator is that of Unix, `/`.
use smoke_tester.Prelude.{ℕ, Bool, false, ◌||◌, [], ◌∷◌, ◌==◌, if◌then◌else◌, map, not}
use smoke_tester.Prelude.Text.{
  Text, codes, is_empty, is_digit, is_upper, is_lower, trim, trim_space,
}

-- The characters that the pattern `[^A-Za-z0-9._-]+` leaves.
unfoldable pub is_safe : ℕ → Bool
is_safe c = is_upper c || is_lower c || is_digit c || c == b'.' || c == b'_' || c == b'-'

-- unsafeChars.ReplaceAllString(s, "-"): each run of other characters becomes one dash. The flag
-- says that the character before belongs to the run.
unfoldable pub replace_unsafe : Bool → Text → Text
unfolding is_safe
replace_unsafe inside [] = []
replace_unsafe inside (c ∷ s) =
    let rest = replace_unsafe (not (is_safe c)) s in
    if is_safe c then c ∷ rest else if inside then rest else b'-' ∷ rest

-- strings.ReplaceAll(s, "/", "-").
unfoldable pub replace_slash : ℕ → ℕ
replace_slash c = if c == b'/' then b'-' else c

-- The cutset "-." of strings.Trim.
unfoldable pub is_edge : ℕ → Bool
is_edge c = c == b'-' || c == b'.'

unfoldable pub sanitize : Text → Text
unfolding replace_slash replace_unsafe is_edge trim_space trim
sanitize s =
    let t =
      trim is_edge (replace_unsafe false (map replace_slash (map replace_slash (trim_space s)))) in
    if is_empty t then codes "leg" else t
