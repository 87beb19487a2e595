-- ===== src/Provision/Api.antt =====
-- internal/provision/client.go: one request of the client of the REST API. The HTTP exchange, the
-- decoders of encoding/json and the schema validator are the fields of `Api`. The state of the
-- client's world is the list of the requests that Request was called for so far, the last one first,
-- whether they left the program or not.
pub mod Request
use smoke_tester.Prelude.{ℕ, ◌&&◌, not, Option, none, some, List, [], ◌∷◌, ◌==◌, if◌then◌else◌}
use smoke_tester.Prelude.Text.{Text, is_empty, Letters}
use smoke_tester.Prelude.Bytes.{Bytes}
use smoke_tester.Prelude.Result.{Result, ok, err}
use smoke_tester.Provision.Types.{Account, SipClient, CallSummary}

-- APIError, and the other errors that a client's method returns.
pub data ApiError : Type 0 where
  marshal build_request transport read_body decode not_account_scoped : ApiError
  api_error : ℕ → Bytes → Text → ApiError
  schema : Text → ApiError

-- How one HTTP exchange goes up to the response: the error that ended it early, or the status, the
-- body and the `msg` that the body holds, if it parses.
pub data Response : Type 0 where
  failed : ApiError → Response
  response : ℕ → Bytes → Option Text → Response

pub data Method : Type 0 where
  get post put delete : Method

-- The body of a request: none, or a JSON object of text fields.
pub data Body : Type 0 where
  no_body : Body
  object : List (Text × Text) → Body

pub record HttpRequest : Type 0 where
  pub token : Text
  pub method : Method
  pub path : Text
  pub body : Body

-- Client: the bearer token and the account, empty for the service provider's client.
pub record Client : Type 0 where
  pub api_key : Text
  pub account_sid : Text

-- Whether a request leaves the program: NewRequest makes it, and its context has time left. A
-- context that has run out before the call, or during an earlier one, lets nothing out.
pub data Departure : Type 0 where
  leaves not_built out_of_time : Departure

-- The tables of the package unicode; the departure of the last request and the answer of the server,
-- which may depend on all that was attempted before, and so on the deadlines of all contexts; the
-- validator's error for a schema path and a body; and the decoders of the bodies.
pub record Api : Type 0 where
  pub letters : Letters
  pub departure : List HttpRequest → Departure
  pub server : List HttpRequest → Response
  pub validate : Text → Bytes → Option Text
  pub decode_sid : Bytes → Option Text
  pub decode_key : Bytes → Option (Text × Text)
  pub decode_account : Bytes → Option Account
  pub decode_accounts : Bytes → Option (List Account)
  pub decode_clients : Bytes → Option (List SipClient)
  pub decode_calls : Bytes → Option (List CallSummary)

-- An action on the world.
abbrev pub M {ℓ} : Type ℓ → Type ℓ
M A = List HttpRequest → A × List HttpRequest

abbrev pub return {ℓ} : {A : Type ℓ} → A → M A
return a log = (a, log)

infixl 5 ◌>>=◌ ◌>>◌
abbrev pub ◌>>=◌ {ℓ κ} : {A : Type ℓ} {B : Type κ} → M A → (A → M B) → M B
◌>>=◌ m f log = f (m log).0 (m log).1

abbrev pub ◌>>◌ {ℓ κ} : {A : Type ℓ} {B : Type κ} → M A → M B → M B
◌>>◌ m k log = k (m log).1

abbrev message : Option Text → Text
message none = []
message (some m) = m

-- The validator's verdict for a schema path and a body.
check_schema : (Text → Bytes → Option Text) → Text → Bytes → Result ApiError Bytes
check_schema validate path body = elim (validate path body) [
  | none ↦ ok body
  | some e ↦ err (schema e)
]

-- What Request makes of the exchange, without the body that it also returns beside an error.
unfoldable pub read_response :
    (Text → Bytes → Option Text) → Response → Text → ℕ → Result ApiError Bytes
unfolding check_schema
read_response validate (failed e) path expect = err e
read_response validate (response status body msg) path expect =
    if not (status == expect)
    then err (api_error status body (message msg))
    else if not (is_empty path) && not (is_empty body)
    then check_schema validate path body
    else ok body

abbrev pub http : Client → Method → Text → Body → HttpRequest
http c method path body = record { token = c.api_key; method = method; path = path; body = body }

-- The exchange that was attempted.
unfoldable pub exchange : Departure → Response → Response
exchange leaves r = r
exchange not_built r = failed build_request
exchange out_of_time r = failed transport

-- The requests of a list of attempts that left.
unfoldable pub sent : Api → List HttpRequest → List HttpRequest
sent api [] = []
sent api (q ∷ log) =
    let rest = sent api log in
    elim (api.departure (q ∷ log)) [ leaves ↦ q ∷ rest | not_built ↦ rest | out_of_time ↦ rest ]

unfoldable pub request : Api → Client → Method → Text → Body → Text → ℕ → M (Result ApiError Bytes)
unfolding read_response exchange
request api c method path body schema_path expect log =
    let log' = http c method path body ∷ log in
    (
      read_response api.validate (exchange (api.departure log') (api.server log')) schema_path
          expect,
      log',
    )

-- StatusOf: the status of an API error, else 0.
unfoldable pub status_of {ℓ} : {A : Type ℓ} → Result ApiError A → ℕ
status_of (ok _) = 0
status_of (err (api_error status _ _)) = status
status_of (err _) = 0

-- json.Unmarshal on a successful body.
unfoldable pub decoded {ℓ} :
    {A : Type ℓ} → (Bytes → Option A) → Result ApiError Bytes → Result ApiError A
decoded decoder (err e) = err e
decoded decoder (ok raw) = elim (decoder raw) [ some a ↦ ok a | none ↦ err decode ]

abbrev pub error_of {ℓ} : {A : Type ℓ} → Result ApiError A → Option ApiError
error_of (ok _) = none
error_of (err e) = some e

-- An API error of the one status that counts as success is dropped.
unfoldable pub unless_status {ℓ} : {A : Type ℓ} → ℕ → Result ApiError A → Option ApiError
unfolding status_of
unless_status n (ok _) = none
unless_status n (err (api_error status body msg)) =
    if status == n then none else some (api_error status body msg)
unless_status n (err e) = some e
