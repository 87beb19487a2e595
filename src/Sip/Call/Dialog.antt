-- ===== src/Sip/Call/Dialog.antt =====
-- Requests inside a dialog and the end of a call, of internal/sip/call.go.
use smoke_tester.Prelude.{Bool, not, Option, none, some, [], ◌∷◌, ◌++◌, leb, if◌then◌else◌}
use smoke_tester.Prelude.Text.{codes, Text}
use smoke_tester.Sip.Call.{Call, Net, set_state, during, local_hangup, hangup_err}
use smoke_tester.Sip.Call.Media.{stop_media}
use smoke_tester.Sip.Message.{Message}
use smoke_tester.Sip.State.{
  answered, ended, is_state, CallError, invalid_state, library, no_contact, rejected_by_peer,
}

-- Hangup: BYE or CANCEL. It reports no error.
unfoldable pub hangup : Bool → Bool → Net → Call → Call × Option CallError
unfolding stop_media during set_state
hangup hook stops n c =
    if is_state c.state ended
    then (c, none)
    else let c' = during n (stop_media hook stops c) in
      elim n.failure [
        | some e ↦ (set_state ended (hangup_err e) n.now c', none)
        | none ↦ (set_state ended local_hangup n.now c', none)
      ]

-- A request inside the dialog: the message that is recorded for it, whether the dialog knows the
-- peer's contact, and the response, if there was one.
pub record Exchange : Type 0 where
  pub net : Net
  pub contact : Bool
  pub request : Message
  pub response : Option Message

unfoldable pub record_response : Option Message → Call → Call
record_response none c = c
record_response (some m) c = record c { recv = c.recv ++ m ∷ [] }

-- The request on record, the library's Do, and the response on record.
unfoldable pub exchanged : Exchange → Call → Call
exchanged x c =
    record_response x.response (during x.net (record c { sent = c.sent ++ x.request ∷ [] }))

unfoldable pub do_in_dialog : Exchange → Call → Call × Option CallError
unfolding exchanged record_response during
do_in_dialog x c =
    if not (is_state c.state answered)
    then (c, some (invalid_state c.state (answered ∷ [])))
    else if not x.contact
    then (c, some no_contact)
    else (exchanged x c, elim x.net.failure [ some e ↦ some (library e) | none ↦ none ])

-- The status of a BYE's response, if it is an error.
unfoldable pub refused : Option Message → Option CallError
refused none = none
refused (some m) = if leb 300 m.status_code then some (rejected_by_peer m.status_code) else none

unfoldable pub error_text : CallError → Text
error_text (library e) = e
error_text no_contact = codes "BYE: no remote contact on dialog"
error_text _ = []

unfoldable pub hangup_with_headers : Bool → Bool → Exchange → Call → Call × Option CallError
unfolding do_in_dialog stop_media set_state refused error_text
hangup_with_headers hook stops x c =
    if not (is_state c.state answered)
    then (c, some (invalid_state c.state (answered ∷ [])))
    else let r = do_in_dialog x (stop_media hook stops c) in
      elim r.1 [
        | some e ↦ (set_state ended (hangup_err (error_text e)) x.net.now r.0, some e)
        | none ↦ (set_state ended local_hangup x.net.now r.0, refused x.response)
      ]
