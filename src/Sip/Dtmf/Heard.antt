-- ===== src/Sip/Dtmf/Heard.antt =====
-- What a receiver hears that drops an event with the timestamp of the event before.
use smoke_tester.Prelude.{
  ℕ, zero, suc, ◌+◌, ◌-◌, ◌*◌, ◌%◌, ◌^◌, ◌≤◌, ◌<◌, ◌≡◌, ◌≢◌, inl, inr, refl, sym, ap, ◌∙◌, Bool,
  true, false, ◌&&◌, Option, none, some, List, [], ◌∷◌, ◌++◌, arith, ltb, leb, ◌==◌, if◌then◌else◌,
  map, All, Option-cases,
}
use mathlib.Core.List.{append_assoc, append-nil}
use smoke_tester.Prelude.Text.{Text}
use smoke_tester.Sip.Dtmf.{
  Write, dtmf_event_code, interim, ending, write, send_interim, send_end, send_digit, send_digits,
  and_then, packets, millisecond, send_dtmf_with_duration,
}
use smoke_tester.Sip.State.{answered}

-- The digit of an event code.
abbrev pub digit_of : ℕ → ℕ
digit_of code =
    if ltb code 10
    then b'0' + code
    else if code == 10
    then b'*'
    else if code == 11
    then b'#'
    else b'A' + (code - 12)

abbrev pub is_new : Option ℕ → ℕ → Bool
is_new none ts = true
is_new (some last) ts = if last == ts then false else true

-- An event is heard when its end comes, unless it bears the timestamp of the last one. Timestamps
-- have 32 bits.
unfoldable pub heard : ℕ → Option ℕ → List Write → Text
heard ts last [] = []
heard ts last (w ∷ ws) =
    let next = (ts + w.increment) % 2 ^ 32 in
    elim w.end_of_event [
      | false ↦ heard next last ws
      | true ↦ elim (is_new last ts) [
        | true ↦ digit_of w.event ∷ heard next (some ts) ws
        | false ↦ heard next last ws
      ]
    ]

-- The small letters stand for the capital ones.
abbrev pub canonical : ℕ → ℕ
canonical r = if leb b'a' r && leb r b'd' then r - 32 else r

abbrev pub IsDigit : ℕ → Type 0
IsDigit r = dtmf_event_code r ≢ none

digit_of-dtmf_event_code :
    (r code : ℕ) → dtmf_event_code r ≡ some code → digit_of code ≡ canonical r
unfolding dtmf_event_code
digit_of-dtmf_event_code r code h = ground arith

abbrev never : ℕ → Option Text
never _ = none

-- The packets of a digit before its end.
abbrev interims : ℕ → ℕ → ℕ → List Write
interims zero i code = []
interims (suc k) i code = interim code i ∷ interims k (i + 1) code

send_interim-never :
    (k i code : ℕ) (out : List Write)
    → send_interim never k i code out ≡ (out ++ interims k i code, none)
unfolding send_interim write
send_interim-never zero i code out = ap (λ xs. (xs, none)) (sym (append-nil out))
send_interim-never (suc k) i code out =
    send_interim-never k (i + 1) code (out ++ interim code i ∷ [])
    ∙ ap (λ xs. (xs, none)) (append_assoc out (interim code i ∷ []) (interims k (i + 1) code))

abbrev event_writes : ℕ → ℕ → List Write
event_writes n code = interims n 0 code ++ ending n code ∷ []

send_digit-never :
    (n code : ℕ) (out : List Write)
    → send_digit never n code out ≡ (out ++ event_writes n code, none)
unfolding send_digit send_end write
send_digit-never n code out =
    ap (λ r. and_then r (λ sent. send_end never n code sent)) (send_interim-never n 0 code out)
    ∙ ap (λ xs. (xs, none)) (append_assoc out (interims n 0 code) (ending n code ∷ []))

heard-interims :
    (k i code ts : ℕ) (last : Option ℕ) (rest : List Write)
    → ts < 2 ^ 32
    → heard ts last (interims k i code ++ rest) ≡ heard ts last rest
unfolding heard
heard-interims zero i code ts last rest h = refl
heard-interims (suc k) i code ts last rest h =
    let same : (ts + 0) % 2 ^ 32 ≡ ts = omega (arith, h) in
    ap (λ t. heard t last (interims k (i + 1) code ++ rest)) same
    ∙ heard-interims k (i + 1) code ts last rest h

heard-event :
    (n code ts : ℕ) (last : Option ℕ) (rest : List Write)
    → ts < 2 ^ 32
    → is_new last ts ≡ true
    → heard ts last (event_writes n code ++ rest)
      ≡ digit_of code ∷ heard ((ts + (ending n code).increment) % 2 ^ 32) (some ts) rest
unfolding heard
heard-event n code ts last rest h new =
    ap (heard ts last) (append_assoc (interims n 0 code) (ending n code ∷ []) rest)
    ∙ (heard-interims n 0 code ts last (ending n code ∷ rest) h ∙ rw (new, heard) refl)

-- The next digit has another timestamp.
is_new-next :
    (n code ts : ℕ)
    → ts < 2 ^ 32
    → is_new (some ts) ((ts + (ending n code).increment) % 2 ^ 32) ≡ true
is_new-next n code ts h = ground arith

abbrev writes_of : ℕ → Option ℕ → List Write
writes_of n none = []
writes_of n (some code) = event_writes n code

all_writes : ℕ → Text → List Write
all_writes n [] = []
all_writes n (r ∷ digits) = writes_of n (dtmf_event_code r) ++ all_writes n digits

all_writes-cons :
    (n r code : ℕ) (digits : Text)
    → dtmf_event_code r ≡ some code
    → all_writes n (r ∷ digits) ≡ event_writes n code ++ all_writes n digits
unfolding all_writes
all_writes-cons n r code digits e = ap (λ o. writes_of n o ++ all_writes n digits) e

send_digits-never :
    (n : ℕ) (digits : Text) (out : List Write)
    → All IsDigit digits
    → send_digits never n digits out ≡ (out ++ all_writes n digits, none)
unfolding send_digits all_writes
send_digits-never n [] out h = ap (λ xs. (xs, none)) (sym (append-nil out))
send_digits-never n (r ∷ digits) out h = elim (Option-cases (dtmf_event_code r)) [
  | inl bad ↦ absurd (h.0 bad)
  | inr (code, good) ↦
      let rest : List Write = all_writes n digits in
      rw (good, send_digits)
        (ap (λ x. and_then x (λ sent. send_digits never n digits sent))
            (send_digit-never n code out)
          ∙ (send_digits-never n digits (out ++ event_writes n code) h.1
              ∙ ap (λ xs. (xs, none)) (append_assoc out (event_writes n code) rest)))
]

heard-all_writes :
    (n ts : ℕ) (last : Option ℕ) (digits : Text)
    → ts < 2 ^ 32
    → is_new last ts ≡ true
    → All IsDigit digits
    → heard ts last (all_writes n digits) ≡ map canonical digits
unfolding heard all_writes
heard-all_writes n ts last [] h new d = refl
heard-all_writes n ts last (r ∷ digits) h new d = elim (Option-cases (dtmf_event_code r)) [
  | inl bad ↦ absurd (d.0 bad)
  | inr (code, good) ↦
      let next : ℕ = (ts + (ending n code).increment) % 2 ^ 32 in
      ap (heard ts last) (all_writes-cons n r code digits good)
      ∙ (heard-event n code ts last (all_writes n digits) h new
          ∙ (ap (λ c. c ∷ heard next (some ts) (all_writes n digits))
                (digit_of-dtmf_event_code r code good)
              ∙ ap (λ xs. canonical r ∷ xs)
                  (heard-all_writes n next (some ts) digits (omega arith) (is_new-next n code ts h)
                    d.1)))
]

-- On an answered call with a packet writer that reports no error, digits of at least 40 ms are all
-- sent, and a receiver hears them one by one, from whatever timestamp on the stream begins,
-- although it drops each event with the timestamp of the event before: also a digit that repeats
-- the one before is heard again.
pub heard-send_dtmf :
    (digits : Text) (per_tone ts : ℕ)
    → All IsDigit digits
    → 40 * millisecond ≤ per_tone
    → ts < 2 ^ 32
    → let r = send_dtmf_with_duration answered true (λ _. none) digits per_tone in
      (r.1 ≡ none) × (heard ts none r.0 ≡ map canonical digits)
unfolding send_dtmf_with_duration
heard-send_dtmf digits per_tone ts d long h =
    let enough : ltb per_tone (40 * millisecond) ≡ false = ground (arith, long) in
    rw (enough, send_digits-never (packets per_tone) digits [] d)
      (refl, heard-all_writes (packets per_tone) ts none digits h refl d)
