-- ===== src/Sip/Call.antt =====
-- The life of a call leg, `Call` of internal/sip/call.go. A method returns the new call and its
-- error. A mutex makes each state change one step; a call of the SIP library is an argument that
-- says how it went, and whether the peer ended the dialog while it ran.
pub mod Media
pub mod Dialog
pub mod Reinvite
pub mod Queries
mod Examples
pub mod Steps
pub mod Moves
pub mod Invariant
pub mod Order
pub mod Race
pub mod Archiving
use smoke_tester.Prelude.{
  ℕ, ◌+◌, Bool, true, false, not, ◌&&◌, ◌||◌, Option, none, some, List, [], ◌∷◌, ltb, if◌then◌else◌,
}
use smoke_tester.Prelude.Text.{Text}
use smoke_tester.Sip.Message.{Message}
use smoke_tester.Sip.State.{
  State, init, trying, ringing, answered, ended, Direction, is_state, is_inbound, CallError,
  inbound_only, invalid_state, not_a_failure, library,
}

pub data EndReason : Type 0 where
  no_reason remote_bye local_hangup : EndReason
  hangup_err : Text → EndReason
  rejected : ℕ → Text → EndReason

-- recordingSession, without its file, its pump and its channel.
pub record Recording : Type 0 where
  pub path : Text
  pub archived : Bool

-- The arguments of one call of ArchiveHook.
pub record Archive : Type 0 where
  pub test : Text
  pub role : Text
  pub pcm_path : Text

pub record Call : Type 0 where
  pub direction : Direction
  pub owner : Text
  pub state : State
  pub answered_at : Option ℕ  -- `none` is the zero time
  pub ended_at : Option ℕ
  pub end_reason : EndReason
  pub done_closes : ℕ  -- how often doneCh was closed; a second time panics
  pub registered : Bool  -- the Call-ID is in the registry of observer.go
  pub signal : Bool  -- stateCh, of capacity 1, holds a value
  pub stop_pending : Bool  -- setState has started `go c.stopMedia()`
  pub sent : List Message
  pub recv : List Message
  pub silence : Bool  -- silenceCancel is set
  pub recording : Option Recording
  pub raw_pcm_path : Text
  pub codec : Text
  pub archives : List Archive  -- the calls of ArchiveHook, the last one first

-- newInboundCall and newOutboundCall: a fresh call with the INVITE on record.
unfoldable pub new_call : Direction → Text → Message → Call
new_call direction owner invite = record {
  direction = direction;
  owner = owner;
  state = init;
  answered_at = none;
  ended_at = none;
  end_reason = no_reason;
  done_closes = 0;
  registered = true;
  signal = false;
  stop_pending = false;
  sent = if is_inbound direction then [] else invite ∷ [];
  recv = if is_inbound direction then invite ∷ [] else [];
  silence = false;
  recording = none;
  raw_pcm_path = [];
  codec = [];
  archives = [];
}

abbrev pub is_none {ℓ} : {A : Type ℓ} → Option A → Bool
is_none none = true
is_none (some _) = false

-- The two blocks of setState under the mutex.
mark_answered : State → ℕ → Call → Call
mark_answered s now c =
    if is_state s answered && is_none c.answered_at then record c { answered_at = some now } else c

mark_ended : State → EndReason → ℕ → Call → Call
mark_ended s reason now c =
    if is_state s ended && is_none c.ended_at
    then record c {
      ended_at = some now;
      end_reason = reason;
      done_closes = c.done_closes + 1;
      registered = false;
      stop_pending = true;
    }
    else c

unfoldable pub set_state : State → EndReason → ℕ → Call → Call
unfolding mark_answered mark_ended
set_state s reason now c =
    if is_state s c.state
    then c
    else record (mark_ended s reason now (mark_answered s now (record c { state = s }))) {
      signal = true;
    }

-- How a call of the SIP library went: its error, whether the dialog's end was reported meanwhile
-- (the OnState callback), and the time behind it.
pub record Net : Type 0 where
  pub bye : Bool
  pub failure : Option Text
  pub now : ℕ

unfoldable pub during : Net → Call → Call
unfolding set_state
during n c = if n.bye then set_state ended remote_bye n.now c else c

-- A library call, and the state change behind its success.
then_state : State → EndReason → Net → Call → Call × Option CallError
then_state s reason n c = elim n.failure [
  | some e ↦ (during n c, some (library e))
  | none ↦ (set_state s reason n.now (during n c), none)
]

unfoldable pub send_trying : Net → Call → Call × Option CallError
unfolding then_state during
send_trying n c =
    if not (is_inbound c.direction)
    then (c, some inbound_only)
    else if not (is_state c.state init)
    then (c, some (invalid_state c.state (init ∷ [])))
    else then_state trying no_reason n c

unfoldable pub send_ringing : Net → Call → Call × Option CallError
unfolding then_state during
send_ringing n c =
    if not (is_inbound c.direction)
    then (c, some inbound_only)
    else if not (is_state c.state init) && not (is_state c.state trying)
    then (c, some (invalid_state c.state (init ∷ trying ∷ [])))
    else then_state ringing no_reason n c

unfoldable pub send_early_media_183 : Net → Call → Call × Option CallError
unfolding then_state during
send_early_media_183 n c =
    if not (is_inbound c.direction)
    then (c, some inbound_only)
    else if not (is_state c.state init)
        && not (is_state c.state trying)
        && not (is_state c.state ringing)
    then (c, some (invalid_state c.state (init ∷ trying ∷ ringing ∷ [])))
    else then_state ringing no_reason n c

abbrev pub is_final : State → Bool
is_final s = is_state s answered || is_state s ended

-- The codec's name is that of the audio reader behind the answer.
with_codec : Text → Call × Option CallError → Call × Option CallError
with_codec codec (c, none) = (record c { codec = codec }, none)
with_codec codec (c, some e) = (c, some e)

-- An outbound call makes no library call here.
unfoldable pub answer : Text → Net → Call → Call × Option CallError
unfolding then_state during with_codec
answer codec n c =
    if is_final c.state
    then (c, some (invalid_state c.state (init ∷ trying ∷ ringing ∷ [])))
    else if is_inbound c.direction
    then with_codec codec (then_state answered no_reason n c)
    else with_codec codec (set_state answered no_reason n.now c, none)

unfoldable pub reject : ℕ → Text → Net → Call → Call × Option CallError
unfolding then_state during
reject code reason n c =
    if not (is_inbound c.direction)
    then (c, some inbound_only)
    else if ltb code 400 || ltb 699 code
    then (c, some (not_a_failure code))
    else if is_final c.state
    then (c, some (invalid_state c.state (init ∷ trying ∷ ringing ∷ [])))
    else then_state ended (rejected code reason) n c
