-- ===== src/Sip/SessionExpires.antt =====
-- internal/sip/messages.go: ParseSessionExpires. An `int` is a number below 2 ^ 64 in two's
-- complement.
pub mod RoundTrip
use smoke_tester.Prelude.{
  ℕ, ◌-◌, ◌%◌, ◌^◌, Option, none, some, List, [], ◌∷◌, ltb, leb, ◌==◌, if◌then◌else◌,
}
use smoke_tester.Prelude.Itoa.{atoi}
use smoke_tester.Prelude.Text.{Text, codes, split, cut, trim_space, equal_fold, lower, Letters}

positive : Option ℕ → Option ℕ
positive none = none
positive (some n) = if ltb n (2 ^ 63) then some n else none

negative : Option ℕ → Option ℕ
negative none = none
negative (some n) = if leb n (2 ^ 63) then some ((2 ^ 64 - n) % 2 ^ 64) else none

-- strconv.Atoi.
unfoldable pub atoi_int : Text → Option ℕ
unfolding positive negative atoi
atoi_int [] = none
atoi_int (c ∷ s) =
    if c == b'+'
    then positive (atoi s)
    else if c == b'-'
    then negative (atoi s)
    else positive (atoi (c ∷ s))

refresher_of : Letters → Text → Option (Text × Text) → Text
unfolding equal_fold trim_space lower
refresher_of u before none = before
refresher_of u before (some (k, v)) =
    if equal_fold u (trim_space k) (codes "refresher") then lower u (trim_space v) else before

-- The loop over the parameters; a later refresher replaces an earlier one.
unfoldable pub refresher_from : Letters → Text → List Text → Text
unfolding refresher_of cut
refresher_from u before [] = before
refresher_from u before (p ∷ ps) = refresher_from u (refresher_of u before (cut b'=' p)) ps

with_delta : Option ℕ → Text → Option (ℕ × Text)
with_delta none refresher = none
with_delta (some delta) refresher = some (delta, refresher)

from_parts : Letters → List Text → Option (ℕ × Text)
unfolding with_delta atoi_int trim_space refresher_from
from_parts u [] = none
from_parts u (d ∷ ps) = with_delta (atoi_int (trim_space d)) (refresher_from u [] ps)

-- ParseSessionExpires; `none` is its error.
unfoldable pub parse_session_expires : Letters → Text → Option (ℕ × Text)
unfolding from_parts split
parse_session_expires u v = from_parts u (split b';' v)
