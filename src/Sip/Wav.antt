-- ===== src/Sip/Wav.antt =====
-- `readTelephonyWAV` of internal/sip/call.go, on the bytes that os.ReadFile returned. Go slices up
-- to the capacity, so the bytes of the buffer behind the file (`spare`) are an argument too.
pub mod Loop
pub mod RoundTrip
use smoke_tester.Prelude.{
  ℕ, zero, suc, ◌+◌, ◌%◌, Bool, true, false, not, ◌||◌, ◌&&◌, ◌++◌, Option, none, some, ltb, leb,
  ◌==◌, if◌then◌else◌, length, take, drop,
}
use smoke_tester.Prelude.Bytes.{Bytes, read_le16, read_le32, slice}
use smoke_tester.Prelude.Result.{Result, ok, err, ◌>>=◌}
use smoke_tester.Prelude.Text.{text_eq, codes}

-- `panic` is Go's run-time panic of a slice out of range. `out_of_fuel` is the model's own.
pub data WavError : Type 0 where
  not_riff fmt_too_small not_pcm no_fmt no_data wrong_format panic out_of_fuel : WavError

-- The variables of the loop over the chunks.
pub record Chunks : Type 0 where
  pub have_fmt : Bool
  pub num_channels : ℕ
  pub sample_rate : ℕ
  pub bits_per : ℕ
  pub samples : Option Bytes

abbrev pub no_chunks : Chunks
no_chunks = record {
  have_fmt = false;
  num_channels = 0;
  sample_rate = 0;
  bits_per = 0;
  samples = none;
}

-- The `switch id`.
unfoldable pub on_chunk : Bytes → ℕ → Bytes → Chunks → Result WavError Chunks
unfolding text_eq
on_chunk id size body st =
    if text_eq id (codes "fmt ")
    then if ltb size 16
      then err fmt_too_small
      else if not (read_le16 body == 1)
      then err not_pcm
      else ok (record {
        have_fmt = true;
        num_channels = read_le16 (drop 2 body);
        sample_rate = read_le32 (drop 4 body);
        bits_per = read_le16 (drop 14 body);
        samples = st.samples;
      })
    else if text_eq id (codes "data")
    then ok (record st { samples = some body })
    else ok st

abbrev pub chunk_size : Bytes → ℕ → ℕ
chunk_size blob i = read_le32 (drop 4 (drop i blob))

-- The body of the chunk that begins at `i`, or the panic.
on_body : Option Bytes → Bytes → ℕ → Chunks → Result WavError Chunks
on_body none id size st = err panic
on_body (some body) id size st = on_chunk id size body st

-- One round: the chunk that begins at `i`.
unfoldable pub read_chunk : Bytes → Bytes → ℕ → Chunks → Result WavError Chunks
unfolding on_body
read_chunk blob spare i st =
    let size = chunk_size blob i in
    on_body (slice (blob ++ spare) (i + 8) (i + 8 + size)) (take 4 (drop i blob)) size st

-- Chunks are padded to an even length.
abbrev pub next_chunk : ℕ → ℕ → ℕ
next_chunk i size = if size % 2 == 1 then i + (8 + size) + 1 else i + (8 + size)

unfoldable pub walk : ℕ → Bytes → Bytes → ℕ → Chunks → Result WavError Chunks
unfolding read_chunk
walk zero blob spare i st = err out_of_fuel
walk (suc fuel) blob spare i st = elim (leb (i + 8) (length blob)) [
  | true ↦ read_chunk blob spare i st >>= λ st'.
      walk fuel blob spare (next_chunk i (chunk_size blob i)) st'
  | false ↦ ok st
]

-- The checks behind the loop.
unfoldable pub check_format : Chunks → Result WavError Bytes
check_format st = if not st.have_fmt then err no_fmt else elim st.samples [
  | none ↦ err no_data
  | some samples ↦
      if st.num_channels == 1 && st.sample_rate == 8000 && st.bits_per == 16
      then ok samples
      else err wrong_format
]

unfoldable pub read_telephony_wav : Bytes → Bytes → Result WavError Bytes
unfolding walk check_format text_eq
read_telephony_wav blob spare =
    if ltb (length blob) 44
      || not (text_eq (take 4 blob) (codes "RIFF"))
      || not (text_eq (take 4 (drop 8 blob)) (codes "WAVE"))
    then err not_riff
    else walk (length blob) blob spare 12 no_chunks >>= check_format
