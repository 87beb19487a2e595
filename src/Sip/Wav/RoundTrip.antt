-- ===== src/Sip/Wav/RoundTrip.antt =====
-- The WAV files that internal/recording writes, read back by internal/sip.
use mathlib.Core.List.{append-nil}
use smoke_tester.Prelude.{
  subst, ℕ, suc, true, ◌+◌, ◌<◌, ◌≡◌, refl, ap, ◌∙◌, [], ◌++◌, none, some, arith, length,
  length-append,
}
use smoke_tester.Prelude.Bytes.{Bytes, le16, le32}
use smoke_tester.Prelude.Result.{Result, ok, err, ◌>>=◌}
use smoke_tester.Prelude.Text.{codes, text_eq}
use smoke_tester.Recording.Wav.{wav_header, wrap_wav, u32}
use smoke_tester.Sip.Wav.{
  chunk_size, WavError, next_chunk, panic, walk, read_chunk, on_chunk, check_format,
  read_telephony_wav, no_chunks, Chunks,
}
use smoke_tester.Sip.Wav.Loop.{
  chunk, read_chunk-file, read_chunk-panic, chunk_size-file, walk-more, walk-done,
  read_telephony_wav-walk,
}

-- What stands before the chunk `fmt `, and that chunk's body.
abbrev riff : ℕ → Bytes
riff n = codes "RIFF" ++ (le32 (u32 (36 + n)) ++ codes "WAVE")

abbrev format : Bytes
format = le16 1 ++ (le16 1 ++ (le32 8000 ++ (le32 16000 ++ (le16 2 ++ le16 16))))

-- A file with the header's two chunks, the second of a claimed size `size`.
abbrev wav : ℕ → ℕ → Bytes → Bytes
wav n size samples =
    riff n ++ chunk b'f' b'm' b't' b' ' 16 (format ++ chunk b'd' b'a' b't' b'a' size samples)

header-wav : (n : ℕ) (pcm : Bytes) → n < 4294967296 → wav_header n ++ pcm ≡ wav n n pcm
unfolding wav_header
header-wav n pcm h = let e : u32 n ≡ n = omega arith in ap (λ m. wav n m pcm) e

abbrev after_fmt : Chunks
after_fmt = record {
  have_fmt = true;
  num_channels = 1;
  sample_rate = 8000;
  bits_per = 16;
  samples = none;
}

first_chunk :
    (n size : ℕ) (samples spare : Bytes)
    → read_chunk (wav n size samples) spare 12 no_chunks ≡ ok after_fmt
unfolding on_chunk
first_chunk n size samples spare =
    read_chunk-file (riff n) b'f' b'm' b't' b' ' format (chunk b'd' b'a' b't' b'a' size samples)
      spare no_chunks (omega arith)

-- The samples are found; more bytes may stand behind them.
data_chunk :
    (n : ℕ) (samples rest spare : Bytes)
    → length samples < 4294967296
    → read_chunk (wav n (length samples) (samples ++ rest)) spare 36 after_fmt
      ≡ ok (record after_fmt { samples = some samples })
unfolding on_chunk
data_chunk n samples rest spare h =
    read_chunk-file (riff n ++ chunk b'f' b'm' b't' b' ' 16 format) b'd' b'a' b't' b'a' samples rest
      spare after_fmt h

data_panic :
    (n size : ℕ) (samples spare : Bytes)
    → size < 4294967296
    → length samples + length spare < size
    → read_chunk (wav n size samples) spare 36 after_fmt ≡ err panic
data_panic n size samples spare h k =
    read_chunk-panic (riff n ++ chunk b'f' b'm' b't' b' ' 16 format) b'd' b'a' b't' b'a' [] samples
      size spare after_fmt h (omega arith)

-- What is left of the reading behind the first chunk.
read-wav :
    (n size : ℕ) (samples spare : Bytes)
    → read_telephony_wav (wav n size samples) spare ≡ (
        walk (suc (suc (length samples + 41))) (wav n size samples) spare 36 after_fmt
        >>= check_format)
unfolding text_eq
read-wav n size samples spare =
    read_telephony_wav-walk (wav n size samples) spare (omega arith) refl refl
    ∙ (ap (λ f. walk f (wav n size samples) spare 12 no_chunks >>= check_format) fuel
        ∙ (ap (λ r. r >>= check_format)
              (walk-more _ (wav n size samples) spare 12 no_chunks (omega arith))
            ∙ ap
                (λ r.
                  r
                  >>= (λ st.
                      walk (suc (suc (length samples + 41))) (wav n size samples) spare 36 st)
                  >>= check_format)
                (first_chunk n size samples spare)))
  where
    fuel : length (wav n size samples) ≡ suc (suc (suc (length samples + 41)))
    fuel = omega arith

-- The last chunk of a file ends the loop.
last_chunk :
    (n : ℕ) (pcm spare : Bytes) (st : Chunks)
    → length pcm < 4294967296
    → walk
        (suc (length pcm + 41))
        (wav n (length pcm) pcm)
        spare
        (next_chunk 36 (chunk_size (wav n (length pcm) pcm) 36))
        st
      ≡ ok st
last_chunk n pcm spare st h =
    walk-done (length pcm + 41) (wav n (length pcm) pcm) spare
      (next_chunk 36 (chunk_size (wav n (length pcm) pcm) 36)) st
      (ground (
        arith,
        chunk_size-file (riff n ++ chunk b'f' b'm' b't' b' ' 16 format) b'd' b'a' b't' b'a' [] pcm
            (length pcm) h,
      ))

read-wav_data :
    (n : ℕ) (pcm spare : Bytes)
    → length pcm < 4294967296
    → read_telephony_wav (wav n (length pcm) pcm) spare ≡ ok pcm
unfolding check_format
read-wav_data n pcm spare h =
    let blob : Bytes = wav n (length pcm) pcm in
    let next : Chunks → Result WavError Chunks =
      λ st. walk (suc (length pcm + 41)) blob spare (next_chunk 36 (chunk_size blob 36)) st in
    read-wav n (length pcm) pcm spare
    ∙ (ap (λ r. r >>= check_format)
          (walk-more (suc (length pcm + 41)) blob spare 36 after_fmt (omega arith))
        ∙ (ap (λ r. r >>= next >>= check_format)
              (subst
                (λ xs.
                  read_chunk (wav n (length pcm) xs) spare 36 after_fmt
                  ≡ ok (record after_fmt { samples = some pcm }))
                (append-nil pcm) (data_chunk n pcm [] spare h))
            ∙ ap (λ r. r >>= check_format)
                (last_chunk n pcm spare (record after_fmt { samples = some pcm }) h)))

-- Reading the file that `wrapWAV` makes of fewer than 2 ^ 32 bytes of samples gives these samples,
-- whatever stands in the buffer behind the file.
pub read_telephony_wav-wrap_wav :
    (pcm spare : Bytes) → length pcm < 4294967296 → read_telephony_wav (wrap_wav pcm) spare ≡ ok pcm
unfolding wrap_wav
read_telephony_wav-wrap_wav pcm spare h =
    ap (λ b. read_telephony_wav b spare) (header-wav (length pcm) pcm h)
    ∙ read-wav_data (length pcm) pcm spare h

-- A file that `wrapWAV` made and that lost its last bytes (`lost`) makes the reader panic, unless
-- the buffer behind the file has room for as many bytes.
pub read_telephony_wav-truncated :
    (pcm lost spare : Bytes)
    → length (pcm ++ lost) < 4294967296
    → length spare < length lost
    → read_telephony_wav (wav_header (length (pcm ++ lost)) ++ pcm) spare ≡ err panic
read_telephony_wav-truncated pcm lost spare h k =
    let n : ℕ = length (pcm ++ lost) in
    ap (λ b. read_telephony_wav b spare) (header-wav n pcm h)
    ∙ (read-wav n n pcm spare
        ∙ (ap (λ r. r >>= check_format)
              (walk-more (suc (length pcm + 41)) (wav n n pcm) spare 36 after_fmt (omega arith))
            ∙ ap
                (λ r.
                  r
                  >>= (λ st.
                      walk (suc (length pcm + 41)) (wav n n pcm) spare
                        (next_chunk 36 (chunk_size (wav n n pcm) 36)) st)
                  >>= check_format)
                (data_panic n n pcm spare h (omega (arith, length-append pcm lost)))))
