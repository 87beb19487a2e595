-- ===== src/Speech/Transcript.antt =====
-- internal/stt/deepgram.go: the transcript of a recording. The speech service, its errors and
-- unicode.ToLower are arguments.
pub mod Attempts
pub mod Words
use smoke_tester.Prelude.{
  ℕ, zero, suc, ◌+◌, Bool, true, false, not, ◌&&◌, ◌||◌, ◌==◌, Option, none, some, List, [], ◌∷◌,
  ◌++◌, map, if◌then◌else◌,
}
use smoke_tester.Prelude.Result.{Result, ok, err, ◌>>=◌}
use smoke_tester.Prelude.Text.{Text, codes, has_prefix, is_empty, is_lower, is_digit, trim_space}

-- Normalize: what the loop writes for one character, after a space or not.
abbrev pub is_word : ℕ → Bool
is_word r = is_lower r || is_digit r

abbrev pub is_blank : ℕ → Bool
is_blank r = r == b' ' || r == 9 || r == 10

unfoldable pub written : Bool → ℕ → Bool × Text
written prev_space r =
    if is_word r
    then (false, r ∷ [])
    else if is_blank r && not prev_space
    then (true, b' ' ∷ [])
    else (prev_space, [])

unfoldable pub normalize_loop : Bool → Text → Text → Text
unfolding written
normalize_loop prev_space b [] = b
normalize_loop prev_space b (r ∷ s) =
    let w = written prev_space r in normalize_loop w.0 (b ++ w.1) s

unfoldable pub normalize : (ℕ → ℕ) → Text → Text
unfolding normalize_loop trim_space
normalize to_lower s = trim_space (normalize_loop true [] (map to_lower s))

-- What isRetryableTranscribeErr looks at.
pub record CallError : Type 0 where
  pub deadline_exceeded : Bool
  pub net_timeout_or_temporary : Bool
  pub message : Text

-- strings.Contains.
unfoldable pub contains_text : Text → Text → Bool
unfolding has_prefix
contains_text [] needle = is_empty needle
contains_text (c ∷ s) needle = has_prefix (c ∷ s) needle || contains_text s needle

any_in : Text → List Text → Bool
unfolding contains_text
any_in msg [] = false
any_in msg (needle ∷ more) = contains_text msg needle || any_in msg more

unfoldable pub is_retryable : CallError → Bool
unfolding any_in
is_retryable e =
    e.deadline_exceeded
    || e.net_timeout_or_temporary
    || any_in e.message (
        codes "connection refused"
        ∷ codes "connection reset"
        ∷ codes "EOF"
        ∷ codes "no such host"
        ∷ codes "i/o timeout"
        ∷ [])

-- A response: no result, or its channels, each with the transcripts of its alternatives.
abbrev pub Response : Type 0
Response = Option (List (List Text))

-- The service on the n-th attempt, and whether the caller's context is done after it.
pub record Service : Type 0 where
  pub key : Text
  pub from_file : ℕ → Result CallError Response
  pub parent_done : ℕ → Bool

pub data TranscribeError : Type 0 where
  no_credentials no_channels no_alternatives no_attempts : TranscribeError
  call_failed : CallError → TranscribeError

-- The part of a round after the call: the result, the error that ends the loop, or the next round.
unfoldable pub attempted :
    Service
    → ℕ
    → Result CallError Response
    → (TranscribeError → ℕ × Result TranscribeError Response)
    → ℕ × Result TranscribeError Response
unfolding is_retryable
attempted s i (ok res) next = (i + 1, ok res)
attempted s i (err e) next = elim (not (is_retryable e) || s.parent_done i) [
  | true ↦ (i + 1, err (call_failed e))
  | false ↦ next (call_failed e)
]

-- transcribeWithRetry, with the number of attempts that were made. `last` is the last error.
unfoldable pub attempt : ℕ → Service → ℕ → TranscribeError → ℕ × Result TranscribeError Response
unfolding attempted
attempt zero s i last = (i, err last)
attempt (suc n) s i last = attempted s i (s.from_file i) (attempt n s (i + 1))

unfoldable pub transcribe_with_retry : Service → ℕ × Result TranscribeError Response
unfolding attempt
transcribe_with_retry s = attempt 2 s 0 no_attempts

unfoldable pub best : (ℕ → ℕ) → Response → Result TranscribeError Text
unfolding normalize
best to_lower none = err no_channels
best to_lower (some []) = err no_channels
best to_lower (some ([] ∷ _)) = err no_alternatives
best to_lower (some ((t ∷ _) ∷ _)) = ok (normalize to_lower t)

-- Transcribe and TranscribeMulawWAV, which differ in the encoding that they name to the service.
unfoldable pub transcribe : (ℕ → ℕ) → Service → ℕ × Result TranscribeError Text
unfolding transcribe_with_retry best
transcribe to_lower s =
    if is_empty s.key
    then (0, err no_credentials)
    else (let r = transcribe_with_retry s in (r.0, r.1 >>= best to_lower))
