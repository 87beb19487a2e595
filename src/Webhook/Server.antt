-- ===== src/Webhook/Server.antt =====
-- internal/webhook/server.go: the handlers of the hooks. A handler takes the registry and returns
-- the new one and the reply; each call on the registry is one step, and a handler is not
-- interrupted here. What only goes to the log, the check of the inbound schema, is left out.
pub mod Ops
pub mod Invariant
pub mod Routing
pub mod Isolation
use smoke_tester.Prelude.{
  ℕ, Bool, true, false, Option, none, some, List, [], ◌++◌, if◌then◌else◌, drop, get_elem?,
}
use smoke_tester.Prelude.Bytes.{Bytes}
use smoke_tester.Prelude.Result.{Result, ok, err}
use smoke_tester.Prelude.Text.{Text, Letters, codes, is_empty}
use smoke_tester.Webhook.Callback.{Callback, http, HookOutcome, http_status_of}
use smoke_tester.Webhook.Correlation.{Request, extract_test_id, extract_call_sid, decode_json}
use smoke_tester.Webhook.Json.{Json, Fields}
use smoke_tester.Webhook.Registry.{
  Registry, Session, anon, bind_call_sid, lookup_by_call_sid, new_session, update, record_callback,
  outcome_for_call_hook, outcome_for_action_hook, fresh_session,
}
use smoke_tester.Prelude.Dict.{lookup}

-- json.Unmarshal and json.Marshal.
pub record Codec : Type 0 where
  pub letters : Letters
  pub decode : Bytes → Option Fields
  pub marshal : List Json → Result Text Bytes

-- What is written: the status, whether the content type is JSON, and the body.
pub record Reply : Type 0 where
  pub status : ℕ
  pub is_json : Bool
  pub body : Bytes

-- Behind the look for the session of a known test.
unfoldable pub known_session : Option ℕ → Text → Text → Registry → Registry × ℕ
unfolding bind_call_sid new_session
known_session (some p) test_id call_sid r = (bind_call_sid call_sid test_id r, p)
known_session none test_id call_sid r =
    let n = new_session test_id r in (bind_call_sid call_sid test_id n.0, n.1)

unfoldable pub bound_session : Option ℕ → Registry → Registry × ℕ
bound_session (some p) r = (r, p)
bound_session none r = new_session anon r

unfoldable pub session_for : Text → Text → Registry → Registry × ℕ
unfolding known_session bound_session lookup lookup_by_call_sid
session_for test_id call_sid r =
    if is_empty test_id
    then bound_session (lookup_by_call_sid call_sid r) r
    else known_session (lookup test_id r.sessions) test_id call_sid r

unfoldable pub write_outcome : Codec → HookOutcome → Reply
unfolding http_status_of
write_outcome codec o =
    if is_empty o.body
    then elim o.verbs [
      | none ↦ record { status = http_status_of o; is_json = false; body = [] }
      | some verbs ↦ elim (codec.marshal verbs) [
        | ok b ↦ record { status = http_status_of o; is_json = true; body = b }
        | err e ↦ record { status = 500; is_json = false; body = e ++ codes "\n" }
      ]
    ]
    else record { status = http_status_of o; is_json = true; body = o.body }

unfoldable pub callback_of : Codec → Text → Request → Callback
unfolding decode_json extract_test_id
callback_of codec hook r = record {
  hook = hook;
  transport = http;
  method = r.method;
  headers = r.headers;
  body = r.body;
  json = decode_json codec.decode r.body;
  test_id = extract_test_id codec.letters codec.decode r;
}

-- The session of a request, with the callback recorded in it.
unfoldable pub captured : Codec → Text → Request → Registry → Registry × ℕ
unfolding session_for extract_test_id extract_call_sid update record_callback callback_of
captured codec hook r reg =
    let found =
      session_for (extract_test_id codec.letters codec.decode r)
        (extract_call_sid codec.decode r.body) reg in
    (update found.1 (record_callback (callback_of codec hook r)) found.0, found.1)

-- The session that a pointer leads to. `session_for` gives only pointers to sessions.
abbrev pub pointed : Option Session → Session
pointed (some s) = s
pointed none = fresh_session []

unfoldable pub handle_call_hook : Codec → Request → Registry → Registry × Reply
unfolding captured write_outcome outcome_for_call_hook
handle_call_hook codec r reg =
    let c = captured codec (codes "call_hook") r reg in
    (c.0, write_outcome codec (outcome_for_call_hook (pointed (get_elem? c.0.heap c.1))))

unfoldable pub handle_status_hook : Codec → Request → Registry → Registry × Reply
unfolding captured
handle_status_hook codec r reg =
    let c = captured codec (codes "call_status_hook") r reg in
    (c.0, record { status = 200; is_json = false; body = [] })

with_body_func : Callback → HookOutcome → HookOutcome
with_body_func cb o = elim o.body_func [ none ↦ o | some fn ↦ record o { body = fn cb } ]

abbrev pub verb_of : Request → Text
verb_of r = drop 8 r.path

-- The path begins with "/action/", by which the request was routed.
unfoldable pub handle_action_hook : Codec → Request → Registry → Registry × Reply
unfolding captured write_outcome outcome_for_action_hook with_body_func callback_of
handle_action_hook codec r reg =
    if is_empty (verb_of r)
    then (reg, record { status = 400; is_json = false; body = codes "verb required in path\n" })
    else let hook = codes "action/" ++ verb_of r in
      let c = captured codec hook r reg in
      let out = outcome_for_action_hook (verb_of r) (pointed (get_elem? c.0.heap c.1)) in
      (c.0, write_outcome codec (with_body_func (callback_of codec hook r) out))
