-- ===== src/Sip/SendWav/Frames.antt =====
-- What SendWAV sends of an audio file.
use smoke_tester.Prelude.{
  ℕ, zero, suc, ◌+◌, ◌≤◌, ◌<◌, ◌≡◌, refl, sym, ap, ◌∙◌, true, false, none, List, [], ◌∷◌, ◌++◌,
  arith, Bool-cases, inl, inr, leb, leb→le, take, drop, length, length-append, take-append-drop,
  length-take_le, All, map,
}
use mathlib.Core.List.{append_assoc, append-nil}
use smoke_tester.Prelude.Bytes.{Bytes}
use smoke_tester.Prelude.Result.{Result, ok}
use smoke_tester.Prelude.Text.{Text}
use smoke_tester.Recording.Wav.{wrap_wav}
use smoke_tester.Sip.Call.{Call}
use smoke_tester.Sip.SendWav.{
  Output, bytes_per_frame, send_frames, send_wav, from_file, played, written_frame,
}
use smoke_tester.Sip.State.{answered}
use smoke_tester.Sip.Wav.{read_telephony_wav}
use smoke_tester.Sip.Wav.RoundTrip.{read_telephony_wav-wrap_wav}

abbrev pub concat : List Bytes → Bytes
concat [] = []
concat (b ∷ bs) = b ++ concat bs

-- The samples are cut into whole frames, of which each was encoded and written, in their order; only
-- what is shorter than a frame is left.
pub record IsPlayed (enc : Bytes → Bytes) (pcm : Bytes) (sent : List Bytes) : Type 0 where
  pub frames : List Bytes
  pub tail : Bytes
  pub whole : concat frames ++ tail ≡ pcm
  pub framed : All (λ f. length f ≡ bytes_per_frame) frames
  pub short : length tail < bytes_per_frame
  pub encoded : sent ≡ map enc frames

send_wav-up :
    (out : Output) (file : Result Text Bytes) (spare : Bytes) (c : Call)
    → c.state ≡ answered
    → send_wav out file spare c ≡ (record c { silence = false }, from_file out file spare)
unfolding send_wav
send_wav-up out file spare c up = ground arith

from_file-wav :
    (out : Output) (blob spare pcm : Bytes)
    → out.writer_error ≡ none
    → read_telephony_wav blob spare ≡ ok pcm
    → from_file out (ok blob) spare ≡ send_frames (suc (length pcm)) out 0 [] pcm
unfolding from_file played
from_file-wav out blob spare pcm writer e = ap (played out) e ∙ ground arith

module _ (out : Output) (enc : Bytes → Bytes)
    (encodes : (f : Bytes) → length f ≡ bytes_per_frame → out.encode f ≡ ok (enc f))
    (writes : (n : ℕ) → out.write_error n ≡ none) where
  send_frames-last :
      (fuel n : ℕ) (sent : List Bytes) (rest : Bytes)
      → leb bytes_per_frame (length rest) ≡ false
      → send_frames (suc fuel) out n sent rest ≡ (sent, none)
  unfolding send_frames
  send_frames-last fuel n sent rest e = ground arith

  send_frames-more :
      (fuel n : ℕ) (sent : List Bytes) (rest : Bytes)
      → leb bytes_per_frame (length rest) ≡ true
      → send_frames (suc fuel) out n sent rest
        ≡ send_frames fuel out
            (n + 1)
            (sent ++ enc (take bytes_per_frame rest) ∷ [])
            (drop bytes_per_frame rest)
  unfolding send_frames written_frame
  send_frames-more fuel n sent rest e =
      let fine : out.encode (take bytes_per_frame rest) ≡ ok (enc (take bytes_per_frame rest)) =
        encodes (take bytes_per_frame rest)
          (length-take_le bytes_per_frame rest (leb→le bytes_per_frame (length rest) e)) in
      ground (arith, fine, writes n)

  IsPlayed-frame :
      (rest : Bytes) (new : List Bytes)
      → bytes_per_frame ≤ length rest
      → IsPlayed enc (drop bytes_per_frame rest) new
      → IsPlayed enc rest (enc (take bytes_per_frame rest) ∷ new)
  IsPlayed-frame rest new h p = record {
    frames = take bytes_per_frame rest ∷ p.frames;
    tail = p.tail;
    whole =
        append_assoc (take bytes_per_frame rest) (concat p.frames) p.tail
        ∙ (ap (λ xs. take bytes_per_frame rest ++ xs) p.whole
            ∙ take-append-drop bytes_per_frame rest);
    framed = (length-take_le bytes_per_frame rest h, p.framed);
    short = p.short;
    encoded = ap (λ bs. enc (take bytes_per_frame rest) ∷ bs) p.encoded;
  }

  shorter :
      (rest : Bytes)
      → bytes_per_frame ≤ length rest
      → length (drop bytes_per_frame rest) < length rest
  shorter rest h =
      let parts : length (take bytes_per_frame rest ++ drop bytes_per_frame rest) ≡ length rest =
        ap length (take-append-drop bytes_per_frame rest) in
      omega (
        arith,
        parts,
        length-append (take bytes_per_frame rest) (drop bytes_per_frame rest),
        length-take_le bytes_per_frame rest h,
      )

  send_frames-sends :
      (fuel n : ℕ) (sent : List Bytes) (rest : Bytes)
      → length rest < fuel
      → (new : List Bytes) × (send_frames fuel out n sent rest ≡ (sent ++ new, none))
        × IsPlayed enc rest new
  send_frames-sends zero n sent rest h = absurd (omega arith)
  send_frames-sends (suc fuel) n sent rest h =
      elim (Bool-cases (leb bytes_per_frame (length rest))) [
        | inr last ↦ (
          [],
          send_frames-last fuel n sent rest last ∙ ap (λ s. (s, none)) (sym (append-nil sent)),
          record {
            frames = [];
            tail = rest;
            whole = refl;
            framed = tt;
            short = ground arith;
            encoded = refl;
          },
        )
        | inl more ↦
            let full : bytes_per_frame ≤ length rest = leb→le bytes_per_frame (length rest) more in
            let b : Bytes = enc (take bytes_per_frame rest) in
            let (new, e, p) =
              send_frames-sends fuel (n + 1) (sent ++ b ∷ []) (drop bytes_per_frame rest)
                (omega (arith, shorter rest full)) in
            (
              b ∷ new,
              send_frames-more fuel n sent rest more
                  ∙ (e ∙ ap (λ s. (s, none)) (append_assoc sent (b ∷ []) new)),
              IsPlayed-frame rest new full p,
            )
      ]

  -- An answered call that plays a file of recorded samples, as the archive writes it: as long as the
  -- encoder takes every frame and no write fails, no error is returned, a running silence is
  -- stopped, and what was written is the whole frames of these samples, encoded, in their order;
  -- only a rest shorter than a frame is left out.
  pub send_wav-plays :
      (pcm spare : Bytes) (c : Call)
      → out.writer_error ≡ none
      → length pcm < 4294967296
      → c.state ≡ answered
      → (sent : List Bytes) × (send_wav out (ok (wrap_wav pcm)) spare c
          ≡ (record c { silence = false }, (sent, none)))
        × IsPlayed enc pcm sent
  send_wav-plays pcm spare c writer small up =
      let (sent, e, p) = send_frames-sends (suc (length pcm)) 0 [] pcm (omega arith) in
      (
        sent,
        send_wav-up out (ok (wrap_wav pcm)) spare c up
            ∙ ap (λ r. (record c { silence = false }, r))
                (from_file-wav out (wrap_wav pcm) spare pcm writer
                    (read_telephony_wav-wrap_wav pcm spare small)
                  ∙ e),
        p,
      )
