-- ===== src/Speech/Prompt.antt =====
-- internal/tts/deepgram.go: the cache of spoken prompts. The speech service, the directory and the
-- write are arguments; the name of a file is the text that `digest` makes of the first eight bytes
-- of a SHA-1 sum.
pub mod Cache
pub mod Torn
use smoke_tester.Prelude.{
  ℕ, ◌+◌, ◌*◌, ◌/◌, ◌++◌, Bool, false, not, ◌==◌, ltb, Option, none, some, List, [], ◌∷◌, take,
  length, if◌then◌else◌,
}
use smoke_tester.Prelude.Bytes.{Bytes, le16, le32}
use smoke_tester.Prelude.Dict.{Dict, lookup, insert}
use smoke_tester.Prelude.Result.{Result, ok, err}
use smoke_tester.Prelude.Text.{Text, codes, is_empty}
use smoke_tester.Recording.Wav.{u16, u32}

pub data PromptError : Type 0 where
  no_credentials : PromptError
  mkdir_failed build_failed request_failed read_failed write_failed : Text → PromptError
  status : ℕ → Bytes → PromptError
  too_short : ℕ → PromptError

-- What a request to the service comes to.
pub data Reply : Type 0 where
  not_built not_sent : Text → Reply
  answered : ℕ → Bytes → Option Text → Reply

-- os.WriteFile: the whole file, an error before the file is touched, or one after some bytes.
pub data Written : Type 0 where
  whole : Written
  not_opened : Text → Written
  torn : ℕ → Text → Written

pub record Service : Type 0 where
  pub key : Text
  pub digest : Text → Text
  pub mkdir_error : Option Text
  pub speak : Text → Text → Reply
  pub write : Text → Written

-- PromptOptions: the voice. The time-out is no part of the model.
abbrev pub default_model : Text
default_model = codes "aura-asteria-en"

unfoldable pub voice : Text → Text
voice model = if is_empty model then default_model else model

-- The files of the cache directory and the number of requests that were sent.
pub record Disk : Type 0 where
  pub files : Dict Bytes
  pub requests : ℕ

-- writeTelephonyWAV: what goes into the buffer, write by write.
all_of : List Bytes → Bytes
all_of [] = []
all_of (b ∷ bs) = b ++ all_of bs

unfoldable pub telephony_wav : Bytes → Bytes
unfolding all_of
telephony_wav pcm =
    let sample_rate : ℕ = 8000 in
    let num_channels : ℕ = 1 in
    let bits_per_sample : ℕ = 16 in
    all_of (
      codes "RIFF"
      ∷ le32 (u32 (36 + length pcm))
      ∷ codes "WAVE"
      ∷ codes "fmt "
      ∷ le32 16
      ∷ le16 1
      ∷ le16 num_channels
      ∷ le32 sample_rate
      ∷ le32 (u32 (sample_rate * num_channels * bits_per_sample / 8))
      ∷ le16 (u16 (num_channels * bits_per_sample / 8))
      ∷ le16 bits_per_sample
      ∷ codes "data"
      ∷ le32 (u32 (length pcm))
      ∷ pcm
      ∷ [])

unfoldable pub write_telephony_wav :
    Written → Text → Bytes → Dict Bytes → Dict Bytes × Result PromptError Text
unfolding telephony_wav insert
write_telephony_wav whole out pcm files = (insert out (telephony_wav pcm) files, ok out)
write_telephony_wav (not_opened e) out pcm files = (files, err (write_failed e))
write_telephony_wav (torn n e) out pcm files =
    (insert out (take n (telephony_wav pcm)) files, err (write_failed e))

-- fetchLPCM on the reply. An error of the service is reported with at most 4096 bytes of its body.
unfoldable pub long_enough : Bytes → Option Text → Result PromptError Bytes
long_enough body (some e) = err (read_failed e)
long_enough body none = if ltb (length body) 1600 then err (too_short (length body)) else ok body

unfoldable pub fetch_lpcm : Reply → Result PromptError Bytes
unfolding long_enough
fetch_lpcm (not_built e) = err (build_failed e)
fetch_lpcm (not_sent e) = err (request_failed e)
fetch_lpcm (answered code body e) =
    if not (code == 200) then err (status code (take 4096 body)) else long_enough body e

-- A file is taken from the cache if it is longer than a header.
unfoldable pub is_cached : Option Bytes → Bool
is_cached none = false
is_cached (some b) = ltb 44 (length b)

unfoldable pub sent_requests : Reply → ℕ
sent_requests (not_built e) = 0
sent_requests _ = 1

unfoldable pub store :
    Written → Text → Result PromptError Bytes → Dict Bytes → Dict Bytes × Result PromptError Text
unfolding write_telephony_wav
store w out (err e) files = (files, err e)
store w out (ok pcm) files = write_telephony_wav w out pcm files

-- MkdirAll, the request and the write.
unfoldable pub generated :
    Option Text → Service → Text → Text → Text → Disk → Disk × Result PromptError Text
unfolding fetch_lpcm sent_requests store
generated (some e) s out model text disk = (disk, err (mkdir_failed e))
generated none s out model text disk =
    let reply = s.speak model text in
    let r = store (s.write out) out (fetch_lpcm reply) disk.files in
    (record { files = r.0; requests = disk.requests + sent_requests reply }, r.1)

unfoldable pub out_path : Service → Text → Text → Text
unfolding voice
out_path s model text = s.digest (voice model ++ (codes "|" ++ text)) ++ codes ".wav"

-- EnsureWAV: the directory afterwards, and the path or the error.
unfoldable pub ensure_wav : Service → Text → Text → Disk → Disk × Result PromptError Text
unfolding out_path voice is_cached lookup generated
ensure_wav s model text disk =
    if is_empty s.key
    then (disk, err no_credentials)
    else if is_cached (lookup (out_path s model text) disk.files)
    then (disk, ok (out_path s model text))
    else generated s.mkdir_error s (out_path s model text) (voice model) text disk
