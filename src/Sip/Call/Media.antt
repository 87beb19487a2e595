-- ===== src/Sip/Call/Media.antt =====
-- The media of a call: the recording and the silence writer of internal/sip/call.go. The media
-- mutex makes each change of a field one step.
use smoke_tester.Prelude.{Bool, true, false, not, ◌||◌, Option, none, some, [], ◌∷◌, if◌then◌else◌}
use smoke_tester.Prelude.Text.{Text, is_empty, base, trim_ext}
use smoke_tester.Sip.Call.{Call, Recording, is_none}
use smoke_tester.Sip.State.{
  answered, is_state, CallError, invalid_state, library, already_recording,
}

-- finalizeRecording of a session that was taken off the call; `hook` says whether an ArchiveHook
-- is installed.
unfoldable pub finalize_recording : Bool → Recording → Call → Call
finalize_recording hook sess c =
    if not hook || is_empty c.owner || is_empty sess.path
    then c
    else if sess.archived
    then c
    else record c {
      archives =
          record { test = c.owner; role = trim_ext (base sess.path); pcm_path = sess.path }
          ∷ c.archives;
    }

-- Behind the lock; `stops` says whether the audio pump ends within the grace time.
unfoldable pub stop_recorded : Bool → Bool → Option Recording → Call → Call
unfolding finalize_recording
stop_recorded hook stops none c = c
stop_recorded hook stops (some sess) c = if stops then finalize_recording hook sess c else c

unfoldable pub stop_media : Bool → Bool → Call → Call
unfolding stop_recorded
stop_media hook stops c =
    stop_recorded hook stops c.recording (record c { silence = false; recording = none })

-- StopRecording waits for the pump without a limit.
unfoldable pub stop_recording : Bool → Call → Call
unfolding stop_recorded
stop_recording hook c = stop_recorded hook true c.recording (record c { recording = none })

-- How opening the file, the reader and the decoder goes: the first error, or the codec's name.
pub data Opened : Type 0 where
  failed : Text → Opened
  opened : Text → Opened

unfoldable pub start_recording : Text → Opened → Call → Call × Option CallError
start_recording path how c =
    if not (is_state c.state answered)
    then (c, some (invalid_state c.state (answered ∷ [])))
    else if not (is_none c.recording)
    then (c, some already_recording)
    else elim how [
      | failed e ↦ (c, some (library e))
      | opened codec ↦ (
        record c {
          codec = codec;
          recording = some (record { path = path; archived = false });
          raw_pcm_path = path;
        },
        none,
      )
    ]

unfoldable pub send_silence : Option Text → Call → Call × Option CallError
send_silence failure c =
    if not (is_state c.state answered)
    then (c, some (invalid_state c.state (answered ∷ [])))
    else if c.silence
    then (c, none)
    else elim failure [
      | some e ↦ (c, some (library e))
      | none ↦ (record c { silence = true }, none)
    ]
