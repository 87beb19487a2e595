-- ===== src/Webhook/SocketExamples.antt =====
-- A web socket that is read once and ends, one that a second connection uses, and an application
-- socket whose first message names its test.
use smoke_tester.Prelude.{
  ◌≡◌, ◌≤◌, ◌↔◌, refl, false, true, Option, none, some, List, [], ◌∷◌, ◌++◌, length, map,
}
use smoke_tester.Prelude.Bytes.{Bytes}
use smoke_tester.Prelude.Dict.{lookup}
use smoke_tester.Prelude.Result.{ok, err}
use smoke_tester.Prelude.Text.{ascii, codes, text_eq}
use smoke_tester.Webhook.AppSocket.{
  AppMsg, AppCodec, Loop, on_app_msg, shared_path_id, test_id_from_app_data, loop, text_in,
}
use smoke_tester.Webhook.AppSocket.Replies.{IsLegible, questions, loop-answers}
use smoke_tester.Webhook.AppSocket.Sessions.{on_app_msg-follows, loop-stays}
use smoke_tester.Webhook.Json.{text, object, Fields, no_fields, field, field_at}
use smoke_tester.Webhook.Registry.{new_registry, new_session}
use smoke_tester.Webhook.Server.{Codec, session_for}
use smoke_tester.Webhook.Server.Invariant.{IsWellFormed}
use smoke_tester.Webhook.Server.Ops.{new_op, run}
use smoke_tester.Webhook.Socket
use smoke_tester.Webhook.Socket.{
  Socket, new_ws_session, room, Event, attached, sent, ended, read, text_message, binary_message,
  send_on_closed,
}
use smoke_tester.Webhook.Socket.Delivery.{reads, frames, first_json, run-delivers}
use smoke_tester.Webhook.Socket.Panics.{late_data, run-Panic}
use smoke_tester.Webhook.Registry.Queue.{IsLess}

abbrev no_json : Bytes → Option Fields
no_json b = none

abbrev stream : List Event
stream =
    attached 1
    ∷ sent (text_message (codes "hi"))
    ∷ sent (binary_message (1 ∷ 2 ∷ []))
    ∷ read
    ∷ ended
    ∷ []

abbrev streamed : Socket
streamed = record {
  conn = some 1;
  inbound = Socket.binary_frame (1 ∷ 2 ∷ []) ∷ [];
  metadata = none;
  closed = true;
  dropped = 0;
}

run-delivers_example :
    IsLess 0 (reads no_json stream new_ws_session ++ streamed.inbound) (frames no_json stream)
    × (length streamed.inbound ≤ room)
    × (streamed.metadata ≡ first_json (frames no_json stream))
unfolding Socket.run new_ws_session
run-delivers_example = run-delivers no_json stream streamed refl

abbrev reconnected : List Event
reconnected = attached 1 ∷ ended ∷ attached 2 ∷ sent (text_message (codes "hi")) ∷ []

run-Panic_example :
    (Socket.run no_json reconnected new_ws_session ≡ err send_on_closed)
    ↔ (late_data false reconnected ≡ true)
run-Panic_example = run-Panic no_json reconnected

abbrev payload : Fields
payload =
    field (codes "customerData") (object (field (codes "x_test_id") (text (codes "t1")) no_fields))
      no_fields

abbrev first_msg : AppMsg
first_msg = record {
  kind = codes "session:new";
  msgid = codes "m1";
  call_sid = codes "c1";
  hook = [];
  payload = 1 ∷ [];
}

abbrev app : AppCodec
app = record {
  decode = λ b. some payload;
  decode_value = λ b. none;
  decode_msg = λ b. some first_msg;
  marshal_ack = λ m a. ok m;
  write_fails = λ before b. false;
}

abbrev codec : Codec
codec = record { letters = ascii; decode = no_json; marshal = λ verbs. ok [] }

empty-IsWellFormed : IsWellFormed new_registry
unfolding new_registry lookup
empty-IsWellFormed t p e = cc

abbrev opening : Loop
opening = record { registry = new_registry; sess = none; conns = []; written = [] }

on_app_msg-follows_example :
    ((on_app_msg app shared_path_id [] first_msg opening).sess
      ≡ some (new_session (test_id_from_app_data app.decode first_msg.payload) new_registry).1)
    × ((session_for [] (codes "c1") (
          run codec
            (new_op (codes "t2") ∷ [])
            (on_app_msg app shared_path_id [] first_msg opening).registry)).1
        ≡ (new_session (test_id_from_app_data app.decode first_msg.payload) new_registry).1)
unfolding test_id_from_app_data field_at text_eq
on_app_msg-follows_example =
    on_app_msg-follows app codec [] first_msg new_registry (new_op (codes "t2") ∷ []) refl refl refl
      empty-IsWellFormed (tt, tt)

abbrev known : Loop
known = record {
  registry = (new_session (codes "t1") new_registry).0;
  sess = some 0;
  conns = 0 ∷ [];
  written = [];
}

loop-stays_example :
    ((loop app shared_path_id (text_in [] ∷ []) known).sess ≡ some 0)
    × ((loop app shared_path_id (text_in [] ∷ []) known).conns ≡ known.conns)
loop-stays_example = loop-stays app shared_path_id (text_in [] ∷ []) 0 known refl

app-IsLegible : IsLegible app (λ b. b)
app-IsLegible = record {
  marshalled = λ m a. m;
  succeeds = λ m a. refl;
  arrives = λ before b. refl;
  legible = λ m a. refl;
}

loop-answers_example :
    map (λ (b : Bytes). b) (loop app shared_path_id (text_in [] ∷ []) opening).written
    ≡ map (λ (b : Bytes). b) opening.written ++ questions app (text_in [] ∷ [])
loop-answers_example =
    loop-answers app (λ b. b) app-IsLegible shared_path_id (text_in [] ∷ []) opening
