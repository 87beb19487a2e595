-- ===== src/Sip/SendWav.antt =====
-- internal/sip/call.go, SendWAV: the frames of an audio file, sent one by one. The encoder of the
-- audio package, the writer and what the file system gives are arguments.
pub mod Frames
use smoke_tester.Prelude.{
  ℕ, zero, suc, ◌+◌, true, false, not, Option, none, some, List, [], ◌∷◌, ◌++◌, leb, take, drop,
  length, if◌then◌else◌,
}
use smoke_tester.Prelude.Bytes.{Bytes}
use smoke_tester.Prelude.Result.{Result, ok, err}
use smoke_tester.Prelude.Text.{Text}
use smoke_tester.Sip.Call.{Call}
use smoke_tester.Sip.State.{State, is_state, answered}
use smoke_tester.Sip.Wav.{read_telephony_wav, WavError}

pub data SendError : Type 0 where
  not_answered : State → SendError
  bad_file : WavError → SendError
  no_file no_writer : Text → SendError
  encode_failed write_failed : Text → SendError
  out_of_fuel : SendError

-- The encoder on one frame, whether the n-th write fails, and whether a writer is there.
pub record Output : Type 0 where
  pub encode : Bytes → Result Text Bytes
  pub write_error : ℕ → Option Text
  pub writer_error : Option Text

-- 160 samples of two bytes.
abbrev pub bytes_per_frame : ℕ
bytes_per_frame = 320

written_frame :
    Output
    → ℕ
    → List Bytes
    → Result Text Bytes
    → (List Bytes → List Bytes × Option SendError)
    → List Bytes × Option SendError
written_frame out n sent (err e) next = (sent, some (encode_failed e))
written_frame out n sent (ok b) next = elim (out.write_error n) [
  | some e ↦ (sent, some (write_failed e))
  | none ↦ next (sent ++ b ∷ [])
]

-- The loop over the frames; a round uses up 320 bytes.
unfoldable pub send_frames : ℕ → Output → ℕ → List Bytes → Bytes → List Bytes × Option SendError
unfolding written_frame
send_frames zero out n sent rest = (sent, some out_of_fuel)
send_frames (suc fuel) out n sent rest = elim (leb bytes_per_frame (length rest)) [
  | false ↦ (sent, none)
  | true ↦
      written_frame out n sent (out.encode (take bytes_per_frame rest))
        (λ sent'. send_frames fuel out (n + 1) sent' (drop bytes_per_frame rest))
]

played : Output → Result WavError Bytes → List Bytes × Option SendError
unfolding send_frames
played out (err e) = ([], some (bad_file e))
played out (ok lpcm) = elim out.writer_error [
  | some e ↦ ([], some (no_writer e))
  | none ↦ send_frames (suc (length lpcm)) out 0 [] lpcm
]

from_file : Output → Result Text Bytes → Bytes → List Bytes × Option SendError
unfolding played read_telephony_wav
from_file out (err e) spare = ([], some (no_file e))
from_file out (ok blob) spare = played out (read_telephony_wav blob spare)

-- SendWAV: the call, what was written, and the error. A running silence is stopped first. The file
-- is what os.ReadFile gives; `spare` is the memory behind its bytes.
unfoldable pub send_wav :
    Output → Result Text Bytes → Bytes → Call → Call × (List Bytes × Option SendError)
unfolding from_file
send_wav out file spare c =
    if not (is_state c.state answered)
    then (c, ([], some (not_answered c.state)))
    else (record c { silence = false }, from_file out file spare)
