-- ===== src/Webhook/AppSocket.antt =====
-- internal/webhook/appws.go: the application socket, over which the system under test fetches its
-- verb scripts. The loop of one connection is a function of the frames that it reads; what only
-- goes to the log is left out. The codecs of encoding/json are arguments.
pub mod Replies
pub mod Sessions
use smoke_tester.Prelude.{
  ℕ, Bool, Option, none, some, List, [], ◌∷◌, ◌++◌, ◌||◌, ◌==◌, if◌then◌else◌, length, drop,
  get_elem?,
}
use smoke_tester.Prelude.Bytes.{Bytes}
use smoke_tester.Prelude.Dict.{lookup}
use smoke_tester.Prelude.Result.{Result, ok, err}
use smoke_tester.Prelude.Text.{Text, codes, is_empty, text_eq, has_prefix}
use smoke_tester.Webhook.Callback.{Callback, HookOutcome, ws}
use smoke_tester.Webhook.Correlation.{correlation_key, or_else, or_empty, decode_json}
use smoke_tester.Webhook.Json.{Json, Fields, field_at, as_object, nonempty}
use smoke_tester.Webhook.Registry.{
  Registry, Session, bind_call_sid, lookup_by_call_sid, new_session, update, record_callback,
  outcome_for_call_hook, outcome_for_action_hook,
}
use smoke_tester.Webhook.Server.{pointed}

-- inboundAppMsg. `data` stays raw.
pub record AppMsg : Type 0 where
  pub kind : Text
  pub msgid : Text
  pub call_sid : Text
  pub hook : Text
  pub payload : Bytes

-- What an ack carries: the scripted verbs, the value of a scripted body, or that body as bytes.
pub data AckPayload : Type 0 where
  ack_verbs : List Json → AckPayload
  ack_value : Json → AckPayload
  ack_bytes : Bytes → AckPayload

-- The codecs, and whether a write to the connection fails, by what was written to it before.
pub record AppCodec : Type 0 where
  pub decode : Bytes → Option Fields
  pub decode_value : Bytes → Option Json
  pub decode_msg : Bytes → Option AppMsg
  pub marshal_ack : Text → AckPayload → Result Text Bytes
  pub write_fails : List Bytes → Bytes → Bool

data_id : Option Fields → Option Text
unfolding field_at
data_id none = none
data_id (some cd) = nonempty (field_at correlation_key cd)

id_in : Option Fields → Option Text
unfolding data_id field_at
id_in none = none
id_in (some d) = or_else (data_id (as_object (field_at (codes "customerData") d))) (
    or_else (data_id (as_object (field_at (codes "customer_data") d)))
      (nonempty (field_at correlation_key d)))

unfoldable pub test_id_from_app_data : (Bytes → Option Fields) → Bytes → Text
unfolding id_in decode_json
test_id_from_app_data decode payload = or_empty (id_in (decode_json decode payload))

abbrev pub shared_path_id : Text
shared_path_id = codes "shared"

by_call : Text → Option ℕ → Registry → Registry × ℕ
unfolding new_session
by_call path (some p) r = (r, p)
by_call path none r = new_session path r

-- resolveAppWSSession, behind the look for the session of the path.
unfoldable pub resolve_by_frame : AppCodec → Text → AppMsg → Registry → Registry × ℕ
unfolding new_session by_call lookup_by_call_sid test_id_from_app_data
resolve_by_frame codec path msg r =
    let id = test_id_from_app_data codec.decode msg.payload in
    if is_empty id then by_call path (lookup_by_call_sid msg.call_sid r) r else new_session id r

path_session : Text → Registry → Option ℕ
unfolding lookup text_eq
path_session path r =
    if is_empty path || text_eq path shared_path_id then none else lookup path r.sessions

resolved : AppCodec → Text → AppMsg → Registry → Option ℕ → Registry × ℕ
unfolding resolve_by_frame
resolved codec path msg r (some p) = (r, p)
resolved codec path msg r none = resolve_by_frame codec path msg r

unfoldable pub resolve_app_session : AppCodec → Text → AppMsg → Registry → Registry × ℕ
unfolding resolved path_session
resolve_app_session codec path msg r = resolved codec path msg r (path_session path r)

unfoldable pub app_hook_label : Text → Text
unfolding text_eq
app_hook_label kind =
    if text_eq kind (codes "session:new")
    then codes "call_hook"
    else if text_eq kind (codes "call:status")
    then codes "call_status_hook"
    else if text_eq kind (codes "verb:hook")
    then codes "verb_hook"
    else kind

-- What stands behind the first occurrence of a text, if there is one: strings.Index.
unfoldable pub after_text : Text → Text → Option Text
unfolding has_prefix
after_text sub [] = if is_empty sub then some [] else none
after_text sub (c ∷ s) =
    if has_prefix (c ∷ s) sub then some (drop (length sub) (c ∷ s)) else after_text sub s

-- What stands before the first `?` or `#`.
unfoldable pub before_query : Text → Text
before_query [] = []
before_query (c ∷ s) = let rest = before_query s in if c == b'?' || c == b'#' then [] else c ∷ rest

verb_in : Option Text → Text
unfolding before_query
verb_in none = []
verb_in (some rest) = before_query rest

unfoldable pub verb_from_hook_url : Text → Text
unfolding verb_in after_text
verb_from_hook_url url = verb_in (after_text (codes "/action/") url)

body_payload : Bytes → Option Json → AckPayload
body_payload b none = ack_bytes b
body_payload b (some v) = ack_value v

verbs_payload : Option (List Json) → AckPayload
verbs_payload none = ack_verbs []
verbs_payload (some verbs) = ack_verbs verbs

-- The `switch` of ackVerbs.
unfoldable pub ack_payload : AppCodec → HookOutcome → AckPayload
unfolding body_payload verbs_payload
ack_payload codec o =
    if is_empty o.body
    then verbs_payload o.verbs
    else body_payload o.body (codec.decode_value o.body)

-- The loop's variables: the registry, `sess`, the sessions that were given the connection, and
-- what was written to it, in order.
pub record Loop : Type 0 where
  pub registry : Registry
  pub sess : Option ℕ
  pub conns : List ℕ
  pub written : List Bytes

-- An ack that cannot be marshalled or written only goes to the log.
unfoldable pub write_ack : AppCodec → Result Text Bytes → Loop → Loop
write_ack codec (ok b) l =
    if codec.write_fails l.written b then l else record l { written = l.written ++ b ∷ [] }
write_ack codec (err e) l = l

-- ackVerbs.
unfoldable pub ack : AppCodec → Text → HookOutcome → Loop → Loop
unfolding write_ack ack_payload
ack codec msgid o l = write_ack codec (codec.marshal_ack msgid (ack_payload codec o)) l

abbrev pub callback_of : AppCodec → Text → Bytes → AppMsg → Callback
callback_of codec path raw msg = record {
  hook = app_hook_label msg.kind;
  transport = ws;
  method = codes "WS";
  headers = [];
  body = raw;
  json = decode_json codec.decode raw;
  test_id = path;
}

bound_conn : Registry × ℕ → Loop → Loop × ℕ
bound_conn f l =
    (record { registry = f.0; sess = some f.1; conns = f.1 ∷ l.conns; written = l.written }, f.1)

-- The session of the connection, resolved by its first message.
unfoldable pub with_session : AppCodec → Text → AppMsg → Loop → Option ℕ → Loop × ℕ
unfolding bound_conn
with_session codec path msg l (some p) = (l, p)
with_session codec path msg l none = bound_conn (resolve_app_session codec path msg l.registry) l

abbrev pub session_at : ℕ → Registry → Session
session_at p r = pointed (get_elem? r.heap p)

-- The call is bound to the session's test, and the message captured.
unfoldable pub capture : AppCodec → Text → Bytes → AppMsg → ℕ → Registry → Registry
capture codec path raw msg p r =
    let bound =
      if is_empty msg.call_sid then r else bind_call_sid msg.call_sid (session_at p r).id r in
    update p (record_callback (callback_of codec path raw msg)) bound

-- The `switch` on the type of the message.
unfoldable pub reply : AppCodec → AppMsg → ℕ → Loop → Loop
unfolding ack outcome_for_call_hook outcome_for_action_hook verb_from_hook_url text_eq
reply codec msg p l =
    if text_eq msg.kind (codes "session:new")
    then ack codec msg.msgid (outcome_for_call_hook (session_at p l.registry)) l
    else if text_eq msg.kind (codes "verb:hook")
    then ack codec msg.msgid
        (outcome_for_action_hook (verb_from_hook_url msg.hook) (session_at p l.registry)) l
    else l

unfoldable pub on_app_msg : AppCodec → Text → Bytes → AppMsg → Loop → Loop
on_app_msg codec path raw msg l =
    let (l', p) = with_session codec path msg l l.sess in
    reply codec msg p (record l' { registry = capture codec path raw msg p l'.registry })

pub data AppFrame : Type 0 where
  text_in other_in : Bytes → AppFrame

on_decoded : AppCodec → Text → Bytes → Option AppMsg → Loop → Loop
unfolding on_app_msg
on_decoded codec path raw none l = l
on_decoded codec path raw (some msg) l = on_app_msg codec path raw msg l

-- One round of the loop of handleAppWS.
unfoldable pub on_frame : AppCodec → Text → AppFrame → Loop → Loop
unfolding on_decoded
on_frame codec path (other_in b) l = l
on_frame codec path (text_in b) l = on_decoded codec path b (codec.decode_msg b) l

unfoldable pub loop : AppCodec → Text → List AppFrame → Loop → Loop
unfolding on_frame
loop codec path [] l = l
loop codec path (f ∷ fs) l = loop codec path fs (on_frame codec path f l)

-- What a connection does to the registry and writes; `none` is the refusal of an empty id.
unfoldable pub handle_app_ws : AppCodec → Text → List AppFrame → Registry → Option Loop
unfolding loop
handle_app_ws codec path fs r =
    if is_empty path
    then none
    else some (loop codec path fs (record { registry = r; sess = none; conns = []; written = [] }))
