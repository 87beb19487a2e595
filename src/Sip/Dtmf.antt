-- ===== src/Sip/Dtmf.antt =====
-- Sending DTMF digits as telephone events (RFC 2833), SendDTMFWithDuration of internal/sip/call.go.
-- The packet writer of the RTP library is an argument: the error of its n-th write, counted from 0.
pub mod Heard
mod Examples
use smoke_tester.Prelude.{
  ℕ, zero, suc, ◌+◌, ◌-◌, ◌*◌, ◌/◌, ◌%◌, ◌^◌, Bool, true, false, not, ◌&&◌, Option, none, some,
  List, [], ◌∷◌, ◌++◌, ltb, leb, ◌==◌, if◌then◌else◌, length,
}
use smoke_tester.Prelude.Text.{Text}
use smoke_tester.Sip.State.{State, answered, is_state}

-- One call of WriteSamples: the event of the payload, by how much the timestamp is advanced behind
-- the packet, and the marker bit.
pub record Write : Type 0 where
  pub event : ℕ
  pub end_of_event : Bool
  pub volume : ℕ
  pub duration : ℕ
  pub increment : ℕ
  pub marker : Bool

pub data DtmfError : Type 0 where
  not_answered : State → DtmfError
  too_short no_writer : DtmfError
  unsupported_digit : ℕ → DtmfError
  write_failed end_failed : Text → DtmfError

abbrev in_range : ℕ → ℕ → ℕ → Bool
in_range lo hi r = leb lo r && leb r hi

unfoldable pub dtmf_event_code : ℕ → Option ℕ
dtmf_event_code r =
    if in_range b'0' b'9' r
    then some (r - b'0')
    else if r == b'*'
    then some 10
    else if r == b'#'
    then some 11
    else if in_range b'A' b'D' r
    then some (r - b'A' + 12)
    else if in_range b'a' b'd' r
    then some (r - b'a' + 12)
    else none

abbrev pub samples_per_20 : ℕ
samples_per_20 = 160

abbrev pub gap_samples : ℕ
gap_samples = 320

-- uint16(n) * samplesPer20, on 16 bits.
abbrev pub samples : ℕ → ℕ
samples n = n % 2 ^ 16 * samples_per_20 % 2 ^ 16

-- The i-th packet of an event.
abbrev pub interim : ℕ → ℕ → Write
interim code i = record {
  event = code;
  end_of_event = false;
  volume = 10;
  duration = samples (i + 1);
  increment = 0;
  marker = i == 0;
}

abbrev pub ending : ℕ → ℕ → Write
ending n code = record {
  event = code;
  end_of_event = true;
  volume = 10;
  duration = samples n;
  increment = (samples n + gap_samples) % 2 ^ 32;
  marker = false;
}

-- A write behind those that went out so far.
unfoldable pub write : (ℕ → Option Text) → Write → List Write → List Write × Option Text
write fails w out = elim (fails (length out)) [
  | none ↦ (out ++ w ∷ [], none)
  | some e ↦ (out, some e)
]

-- The loop over the packets of a digit, from the i-th on.
unfoldable pub send_interim :
    (ℕ → Option Text) → ℕ → ℕ → ℕ → List Write → List Write × Option DtmfError
unfolding write
send_interim fails zero i code out = (out, none)
send_interim fails (suc k) i code out =
    let r = write fails (interim code i) out in
    elim r.1 [
      | some e ↦ (r.0, some (write_failed e))
      | none ↦ send_interim fails k (i + 1) code r.0
    ]

unfoldable pub send_end : (ℕ → Option Text) → ℕ → ℕ → List Write → List Write × Option DtmfError
unfolding write
send_end fails n code out =
    let r = write fails (ending n code) out in
    elim r.1 [ some e ↦ (r.0, some (end_failed e)) | none ↦ (r.0, none) ]

-- Go on if there was no error.
abbrev pub and_then :
    List Write × Option DtmfError
    → (List Write → List Write × Option DtmfError)
    → List Write × Option DtmfError
and_then (out, some e) next = (out, some e)
and_then (out, none) next = next out

unfoldable pub send_digit : (ℕ → Option Text) → ℕ → ℕ → List Write → List Write × Option DtmfError
unfolding send_interim send_end
send_digit fails n code out =
    and_then (send_interim fails n 0 code out) (λ sent. send_end fails n code sent)

-- The loop over the digits.
unfoldable pub send_digits :
    (ℕ → Option Text) → ℕ → Text → List Write → List Write × Option DtmfError
unfolding send_digit dtmf_event_code
send_digits fails n [] out = (out, none)
send_digits fails n (r ∷ digits) out = elim (dtmf_event_code r) [
  | none ↦ (out, some (unsupported_digit r))
  | some code ↦ and_then (send_digit fails n code out) (λ sent. send_digits fails n digits sent)
]

abbrev pub millisecond : ℕ
millisecond = 1000000

abbrev pub at_least_two : ℕ → ℕ
at_least_two n = if ltb n 2 then 2 else n

-- The number of packets of a tone.
abbrev pub packets : ℕ → ℕ
packets per_tone = at_least_two (per_tone / (20 * millisecond))

-- The state of the call, whether its dialog has a packet writer, the digits and the length of a
-- tone in nanoseconds; a negative length is too short like 0.
unfoldable pub send_dtmf_with_duration :
    State → Bool → (ℕ → Option Text) → Text → ℕ → List Write × Option DtmfError
unfolding send_digits
send_dtmf_with_duration s has_writer fails digits per_tone =
    if not (is_state s answered)
    then ([], some (not_answered s))
    else if ltb per_tone (40 * millisecond)
    then ([], some too_short)
    else if not has_writer
    then ([], some no_writer)
    else send_digits fails (packets per_tone) digits []

unfoldable pub send_dtmf : State → Bool → (ℕ → Option Text) → Text → List Write × Option DtmfError
unfolding send_dtmf_with_duration
send_dtmf s has_writer fails digits =
    send_dtmf_with_duration s has_writer fails digits (250 * millisecond)
