-- ===== src/Speech/Examples.antt =====
-- The prompts and the transcripts on concrete inputs.
use smoke_tester.Prelude.{
  ◌==◌, ℕ, ◌≤◌, ◌≡◌, refl, true, false, none, some, [], ◌∷◌, ◌++◌, zero, suc, arith, if◌then◌else◌,
}
use smoke_tester.Prelude.Bytes.{Bytes}
use smoke_tester.Prelude.Dict.{lookup}
use smoke_tester.Prelude.Result.{Ends, ok, err}
use smoke_tester.Prelude.Text.{
  codes, is_empty, to_lower, trim_space, trim, trim_left, trim_right, is_space,
}
use smoke_tester.Sip.Wav.{read_telephony_wav, panic}
use smoke_tester.Speech.Prompt.{
  Service, Disk, Written, whole, torn, answered, write_failed, is_cached, out_path, ensure_wav,
}
use smoke_tester.Speech.Transcript.{
  Service as Stt, transcribe, transcribe_with_retry, attempt, attempted, is_retryable, best,
  normalize, normalize_loop, written,
}
use smoke_tester.Speech.Transcript.Attempts.{Said, transcribe-Said}
use smoke_tester.Speech.Prompt.Cache.{Ensures, ensure_wav-Ensures}
use smoke_tester.Speech.Prompt.Torn.{ensure_wav-torn}

abbrev zeros : ℕ → Bytes
zeros zero = []
zeros (suc n) = 0 ∷ zeros n

abbrev service : Written → Service
service w = record {
  key = codes "k";
  digest = λ t. codes "cafe";
  mkdir_error = none;
  speak = λ model text. answered 200 (zeros 4 ++ zeros 1600) none;
  write = λ out. w;
}

abbrev no_files : Disk
no_files = record { files = []; requests = 0 }

ensure_wav-Ensures_example :
    Ensures
      (service whole)
      []
      (codes "hello")
      (ensure_wav (service whole) [] (codes "hello") no_files)
unfolding lookup
ensure_wav-Ensures_example =
    ensure_wav-Ensures (service whole) [] (codes "hello") no_files (λ n e p. cc) (λ name b e c. cc)

abbrev disk_full : Service
disk_full = service (torn 48 (codes "disk full"))

ensure_wav-torn_example :
    (d : Disk) × (b : Bytes) × (ensure_wav disk_full [] (codes "hello") no_files
      ≡ (d, err (write_failed (codes "disk full"))))
    × (ensure_wav disk_full [] (codes "hello") d ≡ (d, ok (out_path disk_full [] (codes "hello"))))
    × (lookup (out_path disk_full [] (codes "hello")) d.files ≡ some b)
    × (read_telephony_wav b [] ≡ err panic)
unfolding lookup is_cached
ensure_wav-torn_example =
    ensure_wav-torn disk_full [] (codes "hello") no_files (zeros 4) (zeros 1600) []
      (codes "disk full") refl refl refl refl refl (omega arith) (omega arith) (omega arith)
      (omega arith)

-- The first call times out, the second gives a text with a capital, a comma and two spaces.
abbrev stt : Stt
stt = record {
  key = codes "k";
  from_file = λ n.
      if n == 0
      then err (record { deadline_exceeded = true; net_timeout_or_temporary = false; message = [] })
      else ok (some (((codes "Hello,  World." ∷ []) ∷ [])));
  parent_done = λ n. false;
}

said : transcribe to_lower stt ≡ (2, ok (codes "hello world"))
unfolding transcribe transcribe_with_retry attempt attempted is_retryable best normalize
    normalize_loop written to_lower trim_space trim trim_left trim_right is_space
said = refl

transcribe-Said_example :
    let r = transcribe to_lower stt in
    (r.0 ≤ 2) × (is_empty stt.key ≡ true → r.0 ≡ 0) × Ends (Said to_lower stt r.0) (λ _. Unit) r.1
transcribe-Said_example = transcribe-Said to_lower stt
