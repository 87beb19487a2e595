-- ===== src/Webhook/Socket.antt =====
-- internal/webhook/ws.go: the web socket of a session, on which the system under test streams. A
-- step is a critical section of wsSession, or a use of one of its channels. Times are left out.
pub mod Panics
pub mod Delivery
use smoke_tester.Prelude.{
  ℕ, Bool, true, false, Option, none, some, List, [], ◌∷◌, ◌++◌, ltb, if◌then◌else◌, length, ◌+◌,
}
use smoke_tester.Prelude.Bytes.{Bytes}
use smoke_tester.Prelude.Result.{Result, ok, err, ◌>>=◌}
use smoke_tester.Prelude.Text.{Text, codes, text_eq, is_empty}
use smoke_tester.Prelude.Dict.{lookup}
use smoke_tester.Webhook.Registry.{Registry, new_session, anon}
use smoke_tester.Webhook.Json.{Fields, field_at, as_text, as_object}

-- WSMessage. The decoded JSON is `none` for the nil map.
pub data Frame : Type 0 where
  text_frame : Bytes → Option Fields → Frame
  binary_frame : Bytes → Frame

-- wsSession. `conn` is the last connection that was attached, `inbound` the channel, its oldest
-- frame first, and `dropped` counts the frames for which it had no room.
pub record Socket : Type 0 where
  pub conn : Option ℕ
  pub inbound : List Frame
  pub metadata : Option Fields
  pub closed : Bool
  pub dropped : ℕ

unfoldable pub new_ws_session : Socket
new_ws_session = record { conn = none; inbound = []; metadata = none; closed = false; dropped = 0 }

-- The capacity of `inbound`.
abbrev pub room : ℕ
room = 256

-- What conn.ReadMessage returns, when it is no error.
pub data Message : Type 0 where
  text_message binary_message other_message : Bytes → Message

-- Sending on a closed channel panics.
pub data Panic : Type 0 where
  send_on_closed : Panic

abbrev first_of : Option Fields → Option Fields → Option Fields
first_of (some j) _ = some j
first_of none j = j

unfoldable pub stash : Option Fields → Socket → Socket
stash j w = record w { metadata = first_of w.metadata j }

-- `select { case ws.inbound <- msg: default: }`.
unfoldable pub enqueue : Frame → Socket → Result Panic Socket
enqueue f w =
    if w.closed
    then err send_on_closed
    else if ltb (length w.inbound) room
    then ok (record w { inbound = w.inbound ++ f ∷ [] })
    else ok (record w { dropped = w.dropped + 1 })

-- One round of the loop of handleWS.
unfoldable pub on_message : (Bytes → Option Fields) → Message → Socket → Result Panic Socket
unfolding enqueue stash
on_message decode (text_message b) w = enqueue (text_frame b (decode b)) (stash (decode b) w)
on_message decode (binary_message b) w = enqueue (binary_frame b) w
on_message decode (other_message b) w = ok w

-- handleWS attaches its connection when it begins, and closes the channels when it returns.
unfoldable pub attach : ℕ → Socket → Socket
attach c w = record w { conn = some c }

unfoldable pub detach : Socket → Socket
detach w = if w.closed then w else record w { closed = true }

-- What a receive from the channel gives: a frame, that it is closed, or nothing yet.
pub data Receive : Type 0 where
  got : Frame → Receive
  stream_closed waiting : Receive

taken : List Frame → Socket → Receive × Socket
taken [] w = (if w.closed then stream_closed else waiting, w)
taken (f ∷ fs) w = (got f, record w { inbound = fs })

-- WaitWSMessage.
unfoldable pub wait_ws_message : Socket → Receive × Socket
unfolding taken
wait_ws_message w = taken w.inbound w

-- CollectWS on a socket that has ended: it drains what is queued.
unfoldable pub collect_ws : Socket → List Frame × Socket
collect_ws w = (w.inbound, record w { inbound = [] })

unfoldable pub binary_concat : List Frame → Bytes
binary_concat [] = []
binary_concat (text_frame b j ∷ fs) = binary_concat fs
binary_concat (binary_frame b ∷ fs) = b ++ binary_concat fs

-- SendWSText and SendWSBinary: whether the frame goes to a connection, and to which.
unfoldable pub send_ws : Option Socket → Result Text ℕ
send_ws none = err (codes "WS: not connected")
send_ws (some w) = elim w.conn [ none ↦ err (codes "WS: not connected") | some c ↦ ok c ]

pub record Mark : Type 0 where
  pub name : Text
  pub event : Text

text_or_empty : Option Text → Text
text_or_empty none = []
text_or_empty (some s) = s

mark_in : Option Fields → Option Mark
unfolding text_or_empty field_at
mark_in none = none
mark_in (some fs) = some (record {
  name = text_or_empty (as_text (field_at (codes "name") fs));
  event = text_or_empty (as_text (field_at (codes "event") fs));
})

-- parseMark.
unfoldable pub parse_mark : Frame → Option Mark
unfolding mark_in text_or_empty field_at text_eq
parse_mark (binary_frame b) = none
parse_mark (text_frame b none) = none
parse_mark (text_frame b (some j)) =
    if text_eq (text_or_empty (as_text (field_at (codes "type") j))) (codes "mark")
    then mark_in (as_object (field_at (codes "data") j))
    else none

named : Text → Option Mark → Option Mark
unfolding text_eq
named name none = none
named name (some m) = if text_eq m.name name then some m else none

-- The loop of WaitWSMark over what is queued: the frames before the mark are dropped.
unfoldable pub mark_from : Text → List Frame → Option Mark × List Frame
unfolding named parse_mark
mark_from name [] = (none, [])
mark_from name (f ∷ fs) =
    let rest = mark_from name fs in
    elim (named name (parse_mark f)) [ some m ↦ (some m, fs) | none ↦ rest ]

unfoldable pub wait_ws_mark : Text → Socket → Option Mark × Socket
unfolding mark_from
wait_ws_mark name w = let r = mark_from name w.inbound in (r.0, record w { inbound = r.1 })

known_or_anon : Option ℕ → Registry → Registry × ℕ
unfolding new_session
known_or_anon (some p) r = (r, p)
known_or_anon none r = new_session anon r

-- The session of a connection to /ws/<id>; `none` is the refusal of an empty id.
unfoldable pub ws_session : Text → Registry → Option (Registry × ℕ)
unfolding known_or_anon lookup
ws_session id r = if is_empty id then none else some (known_or_anon (lookup id r.sessions) r)

-- What happens to the socket of a session: connections come, send and end, and the test reads.
pub data Event : Type 0 where
  attached : ℕ → Event
  sent : Message → Event
  ended : Event
  read : Event

unfoldable pub step : (Bytes → Option Fields) → Event → Socket → Result Panic Socket
unfolding attach detach on_message wait_ws_message
step decode (attached c) w = ok (attach c w)
step decode (sent m) w = on_message decode m w
step decode ended w = ok (detach w)
step decode read w = ok (wait_ws_message w).1

unfoldable pub run : (Bytes → Option Fields) → List Event → Socket → Result Panic Socket
unfolding step
run decode [] w = ok w
run decode (e ∷ es) w = step decode e w >>= run decode es
