-- ===== src/Speech/Prompt/Cache.antt =====
-- What the cache of prompts hands out.
use mathlib.Core.List.{append-nil}
use smoke_tester.Prelude.{
  ◌≢◌, ◌==◌, subst, ℕ, ◌+◌, ◌≤◌, ◌++◌, ◌≡◌, refl, sym, ap, ◌∙◌, true, false, Option, none, some,
  length, arith, ltb, Bool-cases, inl, inr,
}
use smoke_tester.Prelude.Bytes.{Bytes}
use smoke_tester.Prelude.Dict.{Dict, lookup, insert, lookup-insert}
use smoke_tester.Prelude.Result.{Result, ok, err, Ends}
use smoke_tester.Prelude.Text.{Text, is_empty, text_eq, text_eq_refl}
use smoke_tester.Recording.Wav.{wav_header, wrap_wav}
use smoke_tester.Speech.Prompt.{
  Service, Disk, Written, whole, not_opened, torn, Reply, PromptError, telephony_wav,
  write_telephony_wav, not_built, not_sent, answered, long_enough, fetch_lpcm, is_cached, store,
  generated, out_path, ensure_wav, voice, sent_requests, no_credentials,
}

-- The two writers of a header agree.
pub telephony_wav-wrap_wav : (pcm : Bytes) → telephony_wav pcm ≡ wrap_wav pcm
unfolding telephony_wav wrap_wav wav_header
telephony_wav-wrap_wav pcm = ap (wav_header (length pcm) ++◌) (append-nil pcm)

length-wrap_wav : (pcm : Bytes) → length (wrap_wav pcm) ≡ 44 + length pcm
unfolding wrap_wav wav_header
length-wrap_wav pcm = omega arith

-- A file of the cache is usable: it is a telephony file of 100 milliseconds or more.
abbrev pub IsPrompt : Bytes → Type 0
IsPrompt b = (pcm : Bytes) × (b ≡ wrap_wav pcm) × (1600 ≤ length pcm)

-- Every file that the cache would serve is usable.
abbrev pub IsSound : Dict Bytes → Type 0
IsSound files =
    (name : Text) (b : Bytes) → lookup name files ≡ some b → is_cached (some b) ≡ true → IsPrompt b

-- What a call that gave a path leaves behind.
abbrev pub Serves : Dict Bytes → Text → Type 0
Serves files out = (b : Bytes) × (lookup out files ≡ some b) × IsPrompt b

insert-IsSound :
    (files : Dict Bytes) (out : Text) (v : Bytes)
    → IsSound files
    → (is_cached (some v) ≡ true → IsPrompt v)
    → IsSound (insert out v files)
insert-IsSound files out v h k name b e c = elim (Bool-cases (text_eq out name)) [
  | inl q ↦
      let w : v ≡ b = ground (arith, lookup-insert out name v files) in
      subst IsPrompt w (k (rw w c))
  | inr q ↦ h name b (ground (arith, lookup-insert out name v files)) c
]

long_enough-long :
    (body : Bytes) (e : Option Text)
    → Ends (λ pcm. 1600 ≤ length pcm) (λ _. Unit) (long_enough body e)
unfolding long_enough
long_enough-long body (some e) = tt
long_enough-long body none = elim (Bool-cases (ltb (length body) 1600)) [
  | inl q ↦ rw q tt
  | inr q ↦ rw q (ground (arith, q))
]

fetch_lpcm-long : (r : Reply) → Ends (λ pcm. 1600 ≤ length pcm) (λ _. Unit) (fetch_lpcm r)
unfolding fetch_lpcm
fetch_lpcm-long (not_built e) = tt
fetch_lpcm-long (not_sent e) = tt
fetch_lpcm-long (answered code body e) = elim (Bool-cases (code == 200)) [
  | inl q ↦ rw q (long_enough-long body e)
  | inr q ↦ rw q tt
]

-- Nothing is left half written: the write of the file was whole or did not begin.
abbrev pub IsClean : Written → Type 0
IsClean w = (n : ℕ) (e : Text) → w ≢ torn n e

-- What a step leaves: the directory is sound, and a path is that of the prompt and serves.
abbrev pub Kept : Text → Dict Bytes × Result PromptError Text → Type 0
Kept out r = IsSound r.0 × Ends (λ o. (o ≡ out) × Serves r.0 out) (λ _. Unit) r.1

store-Kept :
    (w : Written) (out : Text) (r : Result PromptError Bytes) (files : Dict Bytes)
    → IsClean w
    → IsSound files
    → Ends (λ pcm. 1600 ≤ length pcm) (λ _. Unit) r
    → Kept out (store w out r files)
unfolding store write_telephony_wav
store-Kept w out (err e) files c h l = (h, tt)
store-Kept whole out (ok pcm) files c h l =
    let p : IsPrompt (telephony_wav pcm) = (pcm, telephony_wav-wrap_wav pcm, l) in
    (
      insert-IsSound files out (telephony_wav pcm) h (λ _. p),
      (
        refl,
        (
          telephony_wav pcm,
          ground (arith, lookup-insert out out (telephony_wav pcm) files, text_eq_refl out),
          p,
        ),
      ),
    )
store-Kept (not_opened e) out (ok pcm) files c h l = (h, tt)
store-Kept (torn n e) out (ok pcm) files c h l = absurd (c n e refl)

module _ (s : Service) (model text : Text) where
  -- The file of the prompt.
  abbrev path : Text
  path = out_path s model text

  -- What a call of EnsureWAV gives: a sound directory and, with a path, a second call that changes
  -- nothing.
  abbrev pub Ensures : Disk × Result PromptError Text → Type 0
  Ensures r =
      IsSound r.0.files
      × Ends (λ o. (o ≡ path) × Serves r.0.files path × (ensure_wav s model text r.0 ≡ (r.0, ok o)))
          (λ _. Unit) r.1

  pub ensure_wav-hit :
      (disk : Disk)
      → is_empty s.key ≡ false
      → is_cached (lookup path disk.files) ≡ true
      → ensure_wav s model text disk ≡ (disk, ok path)
  unfolding ensure_wav
  ensure_wav-hit disk k c = rw (k, c) refl

  ensure_wav-no_key :
      (disk : Disk)
      → is_empty s.key ≡ true
      → ensure_wav s model text disk ≡ (disk, err no_credentials)
  unfolding ensure_wav
  ensure_wav-no_key disk k = rw k refl

  pub ensure_wav-miss :
      (disk : Disk)
      → is_empty s.key ≡ false
      → is_cached (lookup path disk.files) ≡ false
      → ensure_wav s model text disk ≡ generated s.mkdir_error s path (voice model) text disk
  unfolding ensure_wav
  ensure_wav-miss disk k y = rw (k, y) refl

  Serves-is_cached : (files : Dict Bytes) → Serves files path → is_cached (lookup path files) ≡ true
  unfolding is_cached
  Serves-is_cached files (b, e, (pcm, w, l)) = rw e (rw w (ground (arith, length-wrap_wav pcm)))

  is_cached-Serves :
      (files : Dict Bytes) (o : Option Bytes)
      → IsSound files
      → lookup path files ≡ o
      → is_cached o ≡ true
      → Serves files path
  unfolding is_cached
  is_cached-Serves files none h e c = cc
  is_cached-Serves files (some b) h e c = (b, e, h path b e c)

  Kept-Ensures :
      (files : Dict Bytes) (n : ℕ) (r : Result PromptError Text)
      → is_empty s.key ≡ false
      → Kept path (files, r)
      → Ensures (record { files = files; requests = n }, r)
  Kept-Ensures files n (err e) k h = h
  Kept-Ensures files n (ok o) k (h, (e, v)) = (
    h,
    (
      e,
      v,
      ensure_wav-hit (record { files = files; requests = n }) k (Serves-is_cached files v)
          ∙ ap (λ p. (record { files = files; requests = n }, ok p)) (sym e),
    ),
  )

  generated-Ensures :
      (disk : Disk) (m : Option Text)
      → is_empty s.key ≡ false
      → IsClean (s.write path)
      → IsSound disk.files
      → Ensures (generated m s path (voice model) text disk)
  unfolding generated
  generated-Ensures disk (some e) k c h = (h, tt)
  generated-Ensures disk none k c h =
      let r : Reply = s.speak (voice model) text in
      Kept-Ensures _ (disk.requests + sent_requests r) _ k
        (store-Kept (s.write path) path (fetch_lpcm r) disk.files c h (fetch_lpcm-long r))

  -- EnsureWAV in a directory of which every file that the cache would serve is a telephony file of
  -- at least 100 milliseconds, and with a write that is not left half done, keeps the directory so;
  -- if it gives a path, this is the path of the prompt, such a file stands there, and the same call
  -- again gives the path, sends no request and leaves the directory as it is.
  pub ensure_wav-Ensures :
      (disk : Disk)
      → IsClean (s.write path)
      → IsSound disk.files
      → Ensures (ensure_wav s model text disk)
  ensure_wav-Ensures disk c h = elim (Bool-cases (is_empty s.key)) [
    | inl k ↦ subst Ensures (sym (ensure_wav-no_key disk k)) (h, tt)
    | inr k ↦ elim (Bool-cases (is_cached (lookup path disk.files))) [
      | inl y ↦ subst Ensures (sym (ensure_wav-hit disk k y)) (
        h,
        (
          refl,
          is_cached-Serves disk.files (lookup path disk.files) h refl y,
          ensure_wav-hit disk k y,
        ),
      )
      | inr y ↦
          subst Ensures (sym (ensure_wav-miss disk k y))
            (generated-Ensures disk s.mkdir_error k c h)
    ]
  ]
