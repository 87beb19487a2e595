-- ===== src/Speech/Transcript/Attempts.antt =====
-- Where a transcript comes from.
use smoke_tester.Prelude.{
  ◌==◌, subst, ℕ, zero, suc, ◌+◌, ◌≤◌, ◌<◌, ◌≡◌, refl, true, false, not, ◌||◌, none, some, List, [],
  ◌∷◌, map, arith, Bool-cases, inl, inr,
}
use smoke_tester.Prelude.Result.{Result, ok, err, Ends, ◌>>=◌}
use smoke_tester.Prelude.Text.{Text, is_empty}
use smoke_tester.Speech.Transcript.{
  Service, CallError, TranscribeError, Response, is_retryable, attempted, attempt,
  transcribe_with_retry, best, transcribe, call_failed, no_attempts,
}
use smoke_tester.Speech.Transcript.Words.{words, unwords, normalize-words}

module _ (s : Service) where
  -- An attempt after which another is made.
  abbrev pub Retried : ℕ → Type 0
  Retried k =
      (e : CallError) × (s.from_file k ≡ err e)
      × (is_retryable e ≡ true)
      × (s.parent_done k ≡ false)

  -- From attempt i on, `j` is the last one, and every attempt before it is followed by another.
  abbrev pub LastIs : ℕ → ℕ → ℕ → Type 0
  LastIs i calls j = (calls ≡ j + 1) × (i ≤ j) × ((k : ℕ) → i ≤ k → k < j → Retried k)

  -- The result of the loop, `n` attempts from attempt i on.
  abbrev pub Settles : ℕ → ℕ → ℕ × Result TranscribeError Response → Type 0
  Settles n i r =
      (r.0 ≤ i + n)
      × Ends (λ res. (j : ℕ) × LastIs i r.0 j × (s.from_file j ≡ ok res)) (λ _. Unit) r.1

  before :
      (i j : ℕ)
      → Retried i
      → ((k : ℕ) → i + 1 ≤ k → k < j → Retried k)
      → (k : ℕ) → i ≤ k
      → k < j
      → Retried k
  before i j r h k l m = elim (Bool-cases (i == k)) [
    | inl q ↦ subst Retried (ground (arith, q)) r
    | inr q ↦ h k (ground (arith, q, l)) m
  ]

  later-Settles :
      (n i : ℕ) (r : ℕ × Result TranscribeError Response)
      → Retried i
      → Settles n (i + 1) r
      → Settles (suc n) i r
  later-Settles n i (c, err e) t (l, h) = (omega arith, tt)
  later-Settles n i (c, ok res) t (l, (j, (e, m, h), f)) =
      (omega arith, (j, (e, omega arith, before i j t h), f))

  attempted-Settles :
      (n i : ℕ) (o : Result CallError Response)
      (next : TranscribeError → ℕ × Result TranscribeError Response)
      → s.from_file i ≡ o
      → ((e : TranscribeError) → Settles n (i + 1) (next e))
      → Settles (suc n) i (attempted s i o next)
  unfolding attempted
  attempted-Settles n i (ok res) next e h =
      (omega arith, (i, (refl, omega arith, λ k l m. absurd (omega arith)), e))
  attempted-Settles n i (err x) next e h =
      elim (Bool-cases (not (is_retryable x) || s.parent_done i)) [
        | inl q ↦ rw (attempted, q) (omega arith, tt)
        | inr q ↦
            rw (attempted, q)
              (later-Settles n i (next (call_failed x)) (x, e, ground (arith, q), ground (arith, q))
                (h (call_failed x)))
      ]

  attempt-Settles : (n i : ℕ) (last : TranscribeError) → Settles n i (attempt n s i last)
  unfolding attempt
  attempt-Settles zero i last = (omega arith, tt)
  attempt-Settles (suc n) i last =
      attempted-Settles n i (s.from_file i) (attempt n s (i + 1)) refl
        (λ e. attempt-Settles n (i + 1) e)

-- What a transcript is: the words of the first alternative of the first channel, in the response to
-- the last attempt.
abbrev pub Said : (ℕ → ℕ) → Service → ℕ → Text → Type 0
Said to_lower s calls t =
    (j : ℕ) × (text : Text) × (alternatives : List Text) × (channels : List (List Text)) × LastIs s
      0 calls j
    × (s.from_file j ≡ ok (some ((text ∷ alternatives) ∷ channels)))
    × (t ≡ unwords (words (map to_lower text)))

best-Said :
    (to_lower : ℕ → ℕ) (s : Service) (calls j : ℕ) (res : Response)
    → LastIs s 0 calls j
    → s.from_file j ≡ ok res
    → Ends (Said to_lower s calls) (λ _. Unit) (best to_lower res)
unfolding best
best-Said to_lower s calls j none l f = tt
best-Said to_lower s calls j (some []) l f = tt
best-Said to_lower s calls j (some ([] ∷ cs)) l f = tt
best-Said to_lower s calls j (some ((t ∷ ts) ∷ cs)) l f =
    (j, t, ts, cs, l, f, normalize-words to_lower t)

bound-Said :
    (to_lower : ℕ → ℕ) (s : Service) (r : ℕ × Result TranscribeError Response)
    → Settles s 2 0 r
    → Ends (Said to_lower s r.0) (λ _. Unit) (r.1 >>= best to_lower)
bound-Said to_lower s (c, err e) h = tt
bound-Said to_lower s (c, ok res) (l, (j, m, f)) = best-Said to_lower s c j res m f

-- Transcribe calls the service at most twice and, without a key, not at all. The text it gives is
-- the words, one space between two, of the first alternative of the first channel in the response
-- to its last call; a call before that failed in a way that is worth a retry, while the caller
-- still waited.
pub transcribe-Said :
    (to_lower : ℕ → ℕ) (s : Service)
    → let r = transcribe to_lower s in
      (r.0 ≤ 2) × (is_empty s.key ≡ true → r.0 ≡ 0) × Ends (Said to_lower s r.0) (λ _. Unit) r.1
unfolding transcribe transcribe_with_retry
transcribe-Said to_lower s = elim (Bool-cases (is_empty s.key)) [
  | inl q ↦ rw q (omega arith, λ _. refl, tt)
  | inr q ↦
      let h = attempt-Settles s 2 0 no_attempts in
      rw q (omega (arith, h.0), λ e. cc, bound-Said to_lower s (attempt 2 s 0 no_attempts) h)
]
