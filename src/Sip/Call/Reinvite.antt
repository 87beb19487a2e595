-- ===== src/Sip/Call/Reinvite.antt =====
-- Re-INVITE and REFER of internal/sip/call.go.
pub mod Acks
use smoke_tester.Prelude.{
  Bool, true, false, not, Option, none, some, [], ◌∷◌, ◌++◌, ltb, ◌||◌, if◌then◌else◌,
}
use smoke_tester.Prelude.Text.{Text}
use smoke_tester.Sip.Call.{Call, Net, during}
use smoke_tester.Sip.Call.Dialog.{Exchange, exchanged}
use smoke_tester.Sip.Message.{Message}
use smoke_tester.Sip.State.{
  answered, is_state, is_inbound, CallError, invalid_state, library, no_contact, no_sdp,
  outbound_only, rejected_by_peer,
}

-- The exchange of the INVITE, whether there is an SDP to send, the ACK that is made of the
-- response, and the error of writing it.
pub record Reinvite : Type 0 where
  pub exchange : Exchange
  pub sdp : Bool
  pub ack : Message
  pub ack_failure : Option Text

unfoldable pub is_2xx : Message → Bool
is_2xx m = not (ltb m.status_code 200 || not (ltb m.status_code 300))

abbrev pub library_error : Option Text → Option CallError
library_error none = none
library_error (some e) = some (library e)

-- Behind a response: a 2xx is acknowledged; `strict` says whether another one is an error.
unfoldable pub on_response : Bool → Reinvite → Message → Call → Call × Option CallError
unfolding is_2xx
on_response strict x res c =
    if not (is_2xx res)
    then (c, if strict then some (rejected_by_peer res.status_code) else none)
    else (record c { sent = c.sent ++ x.ack ∷ [] }, library_error x.ack_failure)

-- Behind the library's Do, which gives an error or a response: the branch with neither does not
-- come up.
unfoldable pub after_do :
    Bool → Reinvite → Option Text → Option Message → Call → Call × Option CallError
unfolding on_response
after_do strict x (some e) res c = (c, some (library e))
after_do strict x none (some res) c = on_response strict x res c
after_do strict x none none c = (c, some (library []))

unfoldable pub reinvited : Bool → Reinvite → Call → Call × Option CallError
unfolding after_do exchanged
reinvited strict x c =
    after_do strict x x.exchange.net.failure x.exchange.response (exchanged x.exchange c)

unfoldable pub send_reinvite : Reinvite → Call → Call × Option CallError
unfolding reinvited
send_reinvite x c =
    if is_inbound c.direction
    then (c, some outbound_only)
    else if not (is_state c.state answered)
    then (c, some (invalid_state c.state (answered ∷ [])))
    else if not x.exchange.contact
    then (c, some no_contact)
    else if not x.sdp
    then (c, some no_sdp)
    else reinvited true x c

unfoldable pub send_reinvite_with_sdp : Reinvite → Call → Call × Option CallError
unfolding reinvited
send_reinvite_with_sdp x c =
    if is_inbound c.direction
    then (c, some outbound_only)
    else if not (is_state c.state answered)
    then (c, some (invalid_state c.state (answered ∷ [])))
    else if not x.sdp
    then (c, some no_sdp)
    else if not x.exchange.contact
    then (c, some no_contact)
    else reinvited false x c

unfoldable pub send_refer : Net → Call → Call × Option CallError
unfolding during
send_refer n c =
    if not (is_state c.state answered)
    then (c, some (invalid_state c.state (answered ∷ [])))
    else (during n c, library_error n.failure)
