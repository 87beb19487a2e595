-- ===== src/Config/Knobs.antt =====
-- internal/config/config.go, parse: the variables that tune a run, each with its default. An `int`
-- or a Duration is a number below 2 ^ 64 in two's complement.
pub mod Ttl
use smoke_tester.Prelude.{
  ℕ, ◌*◌, ◌%◌, ◌^◌, ◌||◌, Bool, true, false, Option, none, some, List, [], ◌∷◌, ltb, ◌==◌,
  if◌then◌else◌,
}
use smoke_tester.Prelude.Dict.{Dict, lookup}
use smoke_tester.Prelude.Itoa.{atoi}
use smoke_tester.Prelude.Result.{Result, ok, err}
use smoke_tester.Prelude.Text.{Text, codes, is_empty, text_eq, lower, Letters, trim_space}

-- The errors of parse, with what they quote.
pub data ParseError : Type 0 where
  bad_url : Text → ParseError
  bad_ip : Text → ParseError
  missing : List Text → ParseError
  no_dot : Text → ParseError
  unreadable : Text → Text → Text → ParseError
  no_json : Text → Text → ParseError
  bad_ttl : Text → ParseError
  bad_strict : Text → ParseError
  bad_legs : Text → ParseError

-- os.Getenv: an absent variable is the empty text.
abbrev pub value_of : Option Text → Text
value_of none = []
value_of (some v) = v

unfoldable pub getenv : Text → Dict Text → Text
unfolding lookup
getenv k env = value_of (lookup k env)

-- strconv.Atoi, less the negative numbers: `none` is an error or a number below 0.
in_int64 : Option ℕ → Option ℕ
in_int64 none = none
in_int64 (some n) = if ltb n (2 ^ 63) then some n else none

minus_zero : Option ℕ → Option ℕ
minus_zero none = none
minus_zero (some n) = if n == 0 then some 0 else none

unfoldable pub atoi_nonneg : Text → Option ℕ
unfolding atoi in_int64 minus_zero
atoi_nonneg [] = none
atoi_nonneg (c ∷ s) =
    if c == b'+'
    then in_int64 (atoi s)
    else if c == b'-'
    then minus_zero (atoi s)
    else in_int64 (atoi (c ∷ s))

-- time.Hour.
abbrev pub hour : ℕ
hour = 3_600_000_000_000

hours : Text → Option ℕ → Result ParseError ℕ
hours v none = err (bad_ttl v)
hours v (some n) = ok (n * hour % 2 ^ 64)

unfoldable pub orphan_ttl : Text → Result ParseError ℕ
unfolding hours atoi_nonneg
orphan_ttl v = if is_empty v then ok (2 * hour) else hours v (atoi_nonneg v)

unfoldable pub is_one_of : Text → List Text → Bool
unfolding text_eq
is_one_of v [] = false
is_one_of v (w ∷ ws) = text_eq v w || is_one_of v ws

abbrev pub truths : List Text
truths = codes "1" ∷ codes "t" ∷ codes "T" ∷ codes "true" ∷ codes "TRUE" ∷ codes "True" ∷ []

abbrev pub falsehoods : List Text
falsehoods = codes "0" ∷ codes "f" ∷ codes "F" ∷ codes "false" ∷ codes "FALSE" ∷ codes "False" ∷ []

-- strconv.ParseBool, and the error that the caller makes of its failure.
unfoldable pub parse_bool : ParseError → Text → Result ParseError Bool
unfolding is_one_of
parse_bool e v =
    if is_one_of v truths then ok true else if is_one_of v falsehoods then ok false else err e

unfoldable pub contract_strict : Text → Result ParseError Bool
unfolding parse_bool
contract_strict v = if is_empty v then ok true else parse_bool (bad_strict v) v

unfoldable pub record_legs : Letters → Text → Result ParseError Bool
unfolding parse_bool is_one_of lower trim_space
record_legs u v =
    if is_empty v
    then ok false
    else let word = lower u (trim_space v) in
      if is_one_of word (codes "on" ∷ codes "yes" ∷ [])
      then ok true
      else if is_one_of word (codes "off" ∷ codes "no" ∷ [])
      then ok false
      else parse_bool (bad_legs v) v
