-- ===== src/Sip/Invite.antt =====
-- internal/sip/uac.go and uac_cancel.go: outbound calls. The SIP library is the record Agent; its
-- calls are logged in their order, so that a theorem can say which were made.
pub mod Release
use smoke_tester.Prelude.{
  ℕ, Bool, Option, none, some, List, [], ◌∷◌, ◌++◌, ◌||◌, ◌==◌, not, if◌then◌else◌, ◌&&◌,
}
use smoke_tester.Prelude.Bytes.{Bytes}
use smoke_tester.Prelude.Result.{Result, ok, err}
use smoke_tester.Prelude.Text.{Text, codes, is_empty, text_eq}
use smoke_tester.Sip.Call.{Call, new_call, set_state, no_reason, remote_bye}
use smoke_tester.Sip.Message.{Message}
use smoke_tester.Sip.State.{outbound, answered, ended}

-- What prepareInvite reads of the stack's Config.
pub record Defaults : Type 0 where
  pub transport : Text
  pub user : Text
  pub pass : Text
  pub owner : Text

-- InviteOptions, with the headers in the order in which the map is walked. FromUser, FromHost and
-- PublicIP are read nowhere.
pub record InviteOptions : Type 0 where
  pub transport : Text
  pub username : Text
  pub password : Text
  pub headers : List (Text × Text)
  pub sdp_mode : Text

-- A final response that was no success.
pub record Rejection : Type 0 where
  pub status_code : ℕ
  pub reason : Text
  pub headers : List (Text × Text)

-- An error of the library: one with the peer's response in it, the one that stands for early media,
-- or another.
pub data SipError : Type 0 where
  response : Rejection → SipError
  early_media : SipError
  other : Text → SipError

pub data InviteError : Type 0 where
  bad_uri : Text → InviteError
  bad_mode : Text → InviteError
  invite_rejected : Rejection → InviteError
  wrapped : SipError → InviteError
  was_answered : InviteError
  cancel_refused : ℕ → Text → InviteError

abbrev pub or_default : Text → Text → Text
or_default a b = if is_empty a then b else a

-- The modes of the package sdp, and the empty text that keeps the library's own.
unfoldable pub is_sdp_mode : Text → Bool
unfolding text_eq
is_sdp_mode m =
    is_empty m
    || text_eq m (codes "sendrecv")
    || text_eq m (codes "sendonly")
    || text_eq m (codes "recvonly")
    || text_eq m (codes "inactive")

unfoldable pub with_defaults : Defaults → InviteOptions → InviteOptions
with_defaults cfg o = record o {
  transport = or_default o.transport (or_default cfg.transport (codes "tcp"));
  username = or_default o.username cfg.user;
  password = or_default o.password cfg.pass;
}

checked : Defaults → InviteOptions → Option Text → Result InviteError InviteOptions
unfolding is_sdp_mode with_defaults
checked cfg o (some e) = err (bad_uri e)
checked cfg o none =
    if is_sdp_mode o.sdp_mode then ok (with_defaults cfg o) else err (bad_mode o.sdp_mode)

-- prepareInvite. `uri_error` is the error of sip.ParseUri on the destination.
unfoldable pub prepare_invite :
    (Text → Option Text) → Defaults → Text → InviteOptions → Result InviteError InviteOptions
unfolding checked
prepare_invite uri_error cfg dest o = checked cfg o (uri_error dest)

-- The calls of the library that go to the network or change the dialog; `no_dialog` is a NewDialog
-- that failed.
pub data Traffic : Type 0 where
  new_dialog no_dialog : Text → Text → Traffic
  set_mode : Text → Traffic
  sent_invite : Text → Text → List (Text × Text) → Traffic
  sent_ack closed_dialog sent_cancel : Traffic

-- How the library's calls go, by the destination and the options that are in force: the creation of
-- the dialog, the INVITE and the ACK; the INVITE that was sent, the 2xx response and the name of
-- the codec; and whether the peer ends the dialog before Invite sets the state, and between that
-- and its return.
pub record Agent : Type 0 where
  pub uri_error : Text → Option Text
  pub dialog_error : Text → InviteOptions → Option SipError
  pub invite_error : Text → InviteOptions → Option SipError
  pub ack_error : Text → InviteOptions → Option SipError
  pub request : Text → InviteOptions → Message
  pub answer : Text → InviteOptions → Option Message
  pub codec : Text → InviteOptions → Text
  pub bye_before : Bool
  pub bye_after : Bool
  pub now : ℕ

unfoldable pub mode_traffic : InviteOptions → List Traffic
mode_traffic o = if is_empty o.sdp_mode then [] else set_mode o.sdp_mode ∷ []

unfoldable pub invite_traffic : Text → InviteOptions → List Traffic
unfolding mode_traffic
invite_traffic dest o =
    new_dialog dest o.transport
    ∷ (mode_traffic o ++ sent_invite o.username o.password o.headers ∷ [])

-- The error that a failed Invite returns.
unfoldable pub invite_failure : SipError → InviteError
invite_failure (response r) = invite_rejected r
invite_failure early_media = wrapped early_media
invite_failure (other e) = wrapped (other e)

received : Option Message → Call → Call
received none c = c
received (some m) c = record c { recv = c.recv ++ m ∷ [] }

overtaken : Bool → ℕ → Call → Call
unfolding set_state
overtaken bye now c = if bye then set_state ended remote_bye now c else c

-- The call behind a successful Invite. The stack tracks it.
unfoldable pub established : Agent → Defaults → Text → InviteOptions → Call
unfolding received new_call set_state overtaken
established a cfg dest o =
    let up =
      set_state answered no_reason a.now
        (overtaken a.bye_before a.now (new_call outbound cfg.owner (a.request dest o))) in
    record (received (a.answer dest o) (overtaken a.bye_after a.now up)) { codec = a.codec dest o }

-- The inlined sequence of the library: what went to the network, and the error.
acked : List Traffic → Option SipError → List Traffic × Option SipError
acked sent none = (sent ++ sent_ack ∷ [], none)
acked sent (some e) = (sent ++ (sent_ack ∷ (closed_dialog ∷ [])), some e)

invited : Agent → Text → InviteOptions → Option SipError → List Traffic × Option SipError
unfolding acked invite_traffic
invited a dest o (some e) = (invite_traffic dest o ++ closed_dialog ∷ [], some e)
invited a dest o none = acked (invite_traffic dest o) (a.ack_error dest o)

dialled : Agent → Text → InviteOptions → Option SipError → List Traffic × Option SipError
unfolding invited
dialled a dest o (some e) = (no_dialog dest o.transport ∷ [], some e)
dialled a dest o none = invited a dest o (a.invite_error dest o)

unfoldable pub dial : Agent → Text → InviteOptions → List Traffic × Option SipError
unfolding dialled
dial a dest o = dialled a dest o (a.dialog_error dest o)

finished :
    Agent
    → Defaults
    → Text
    → InviteOptions
    → List Traffic × Option SipError
    → List Traffic × Result InviteError Call
unfolding invite_failure established
finished a cfg dest o (sent, some e) = (sent, err (invite_failure e))
finished a cfg dest o (sent, none) = (sent, ok (established a cfg dest o))

prepared :
    Agent
    → Defaults
    → Text
    → Result InviteError InviteOptions
    → List Traffic × Result InviteError Call
unfolding finished dial
prepared a cfg dest (err e) = ([], err e)
prepared a cfg dest (ok o) = finished a cfg dest o (dial a dest o)

-- Stack.Invite: what it did, and the call or the error.
unfoldable pub invite :
    Agent → Defaults → Text → InviteOptions → List Traffic × Result InviteError Call
unfolding prepared prepare_invite
invite a cfg dest o = prepared a cfg dest (prepare_invite a.uri_error cfg dest o)

-- InviteEarlyMedia. The responses are those that the library hands to OnResponse: the status,
-- whether it is provisional, and the body; the last provisional one with a body is kept.
pub record Response : Type 0 where
  pub status : ℕ
  pub provisional : Bool
  pub body : Bytes

unfoldable pub early_of : Option Response → List Response → Option Response
early_of early [] = early
early_of early (r ∷ rs) =
    early_of (if r.provisional && not (is_empty r.body) then some r else early) rs

early_outcome : Option SipError → Option Response → Result InviteError (Option Response)
early_outcome none early = err was_answered
early_outcome (some early_media) early = ok early
early_outcome (some (response r)) early = err (invite_rejected r)
early_outcome (some (other e)) early = err (wrapped (other e))

early_traffic : Option SipError → List Traffic
early_traffic (some early_media) = []
early_traffic _ = closed_dialog ∷ []

pending :
    Agent
    → Text
    → InviteOptions
    → List Response
    → Option SipError
    → List Traffic × Result InviteError (Option Response)
unfolding invite_traffic early_traffic early_outcome early_of
pending a dest o rs (some e) = (no_dialog dest o.transport ∷ [], err (wrapped e))
pending a dest o rs none = (
  invite_traffic dest o ++ early_traffic (a.invite_error dest o),
  early_outcome (a.invite_error dest o) (early_of none rs),
)

early_prepared :
    Agent
    → Text
    → List Response
    → Result InviteError InviteOptions
    → List Traffic × Result InviteError (Option Response)
unfolding pending
early_prepared a dest rs (err e) = ([], err e)
early_prepared a dest rs (ok o) = pending a dest o rs (a.dialog_error dest o)

unfoldable pub invite_early_media :
    Agent
    → Defaults
    → Text
    → InviteOptions
    → List Response
    → List Traffic × Result InviteError (Option Response)
unfolding early_prepared prepare_invite
invite_early_media a cfg dest o rs =
    early_prepared a dest rs (prepare_invite a.uri_error cfg dest o)

-- CancelWithHeaders, from how the CANCEL went: an error, or the status and reason of its response.
unfoldable pub cancel_with_headers : Result SipError Rejection → Option InviteError
cancel_with_headers (err e) = some (wrapped e)
cancel_with_headers (ok r) =
    if r.status_code == 200 then none else some (cancel_refused r.status_code r.reason)
