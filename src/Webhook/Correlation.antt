-- ===== src/Webhook/Correlation.antt =====
-- internal/webhook/correlation.go, and extractCallSid of server.go: which test and which call a
-- request belongs to. The decoder of encoding/json is an argument: it gives `none` for what is no
-- JSON object.
use smoke_tester.Prelude.{Option, none, some, [], if◌then◌else◌}
use smoke_tester.Prelude.Bytes.{Bytes}
use smoke_tester.Prelude.Dict.{Dict}
use smoke_tester.Prelude.Text.{Text, codes, is_empty, equal_fold, Letters}
use smoke_tester.Webhook.Json.{
  Fields, no_fields, field, field_at, nonempty, as_text, as_object, some_text,
}

-- An HTTP request: the values of the correlation header and of the query parameter of that name,
-- empty if absent, the first value of each header, and the bytes that could be read of the body.
pub record Request : Type 0 where
  pub method : Text
  pub path : Text
  pub test_header : Text
  pub test_query : Text
  pub headers : Dict Text
  pub body : Bytes

abbrev pub correlation_header : Text
correlation_header = codes "X-Test-Id"

abbrev pub correlation_key : Text
correlation_key = codes "x_test_id"

abbrev pub or_else : Option Text → Option Text → Option Text
or_else (some s) _ = some s
or_else none o = o

-- The first header of that name in any case whose value is a text, which may be empty.
unfoldable pub folded_header : Letters → Fields → Option Text
unfolding equal_fold
folded_header u no_fields = none
folded_header u (field k v fs) =
    let rest = folded_header u fs in
    if equal_fold u k correlation_header then or_else (as_text v) rest else rest

from_headers : Letters → Option Fields → Option Text
from_headers u none = none
from_headers u (some hdrs) =
    or_else (nonempty (field_at correlation_header hdrs)) (folded_header u hdrs)

from_sip : Letters → Option Fields → Option Text
unfolding from_headers
from_sip u none = none
from_sip u (some sip) = from_headers u (as_object (field_at (codes "headers") sip))

from_customer_data : Option Fields → Option Text
from_customer_data none = none
from_customer_data (some cd) =
    or_else (nonempty (field_at correlation_key cd)) (nonempty (field_at correlation_header cd))

unfoldable pub from_body : Letters → Option Fields → Option Text
unfolding from_sip from_customer_data field_at folded_header
from_body u none = none
from_body u (some m) = or_else (nonempty (field_at correlation_header m)) (
    or_else (nonempty (field_at correlation_key m)) (
      or_else (from_sip u (as_object (field_at (codes "sip") m)))
        (from_customer_data (as_object (field_at (codes "customerData") m)))))

abbrev pub or_empty : Option Text → Text
or_empty none = []
or_empty (some s) = s

-- decodeJSON.
unfoldable pub decode_json : (Bytes → Option Fields) → Bytes → Option Fields
decode_json decode body = if is_empty body then none else decode body

unfoldable pub extract_test_id : Letters → (Bytes → Option Fields) → Request → Text
unfolding from_body decode_json
extract_test_id u decode r = or_empty (
    or_else (some_text r.test_header)
      (or_else (some_text r.test_query) (from_body u (decode_json decode r.body))))

call_sid_in : Option Fields → Text
call_sid_in none = []
call_sid_in (some m) = or_empty (as_text (field_at (codes "call_sid") m))

unfoldable pub extract_call_sid : (Bytes → Option Fields) → Bytes → Text
unfolding call_sid_in decode_json
extract_call_sid decode body = call_sid_in (decode_json decode body)
