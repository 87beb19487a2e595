-- ===== src/Sip/Wav/Loop.antt =====
-- The loop of `readTelephonyWAV`: a chunk that lies in the file is read, and the loop ends.
use smoke_tester.Prelude.{
  ltb, le→leb, ℕ, zero, suc, ◌+◌, ◌≤◌, ◌<◌, ◌≡◌, ◌≢◌, ap, subst, ◌∙◌, true, false, inl, inr, [],
  ◌∷◌, ◌++◌, none, some, arith, leb, leb→le, Bool-cases, length, take, drop, length-append,
  drop-length-append,
}
use mathlib.Core.List.{append_assoc}
use smoke_tester.Prelude.Bytes.{Bytes, le32, read_le32, read_le32-le32, slice, slice-append}
use smoke_tester.Prelude.Result.{ok, err, ◌>>=◌, >>=-ne-err}
use smoke_tester.Prelude.Text.{text_eq, codes}
use smoke_tester.Sip.Wav.{
  no_chunks, out_of_fuel, panic, Chunks, on_chunk, on_body, read_chunk, chunk_size, next_chunk,
  walk, check_format, read_telephony_wav,
}

-- A chunk: an id of four bytes, the size and the body.
abbrev pub chunk : ℕ → ℕ → ℕ → ℕ → ℕ → Bytes → Bytes
chunk a b c d size body = a ∷ b ∷ c ∷ d ∷ (le32 size ++ body)

module _ (pre : Bytes) (a b c d : ℕ) (body rest : Bytes) where
  abbrev file : ℕ → Bytes
  file size = pre ++ chunk a b c d size (body ++ rest)

  pub chunk_size-file : (size : ℕ) → size < 4294967296 → chunk_size (file size) (length pre) ≡ size
  chunk_size-file size h =
      ap (λ xs. read_le32 (drop 4 xs)) (drop-length-append pre (chunk a b c d size (body ++ rest)))
      ∙ read_le32-le32 size (body ++ rest) h

  -- The chunk's body is found, whatever stands behind it.
  slice-file :
      (size : ℕ) (spare : Bytes)
      → slice (file size ++ spare) (length pre + 8) (length pre + 8 + length body) ≡ some body
  slice-file size spare =
      subst (λ n. slice (file size ++ spare) n (n + length body) ≡ some body)
        (length-append pre header)
        (subst
          (λ xs.
            slice xs (length (pre ++ header)) (length (pre ++ header) + length body) ≡ some body)
          (simp append_assoc) (slice-append (pre ++ header) body (rest ++ spare)))
    where
      header : Bytes
      header = a ∷ b ∷ c ∷ d ∷ le32 size

  slice-file-none :
      (size : ℕ) (spare : Bytes)
      → length body + length rest + length spare < size
      → slice (file size ++ spare) (length pre + 8) (length pre + 8 + size) ≡ none
  unfolding slice
  slice-file-none size spare k = ground (
    arith,
    length-append (file size) spare,
    length-append pre (chunk a b c d size (body ++ rest)),
    length-append body rest,
  )

  -- A chunk that lies in the file is handed to the switch.
  pub read_chunk-file :
      (spare : Bytes) (st : Chunks)
      → length body < 4294967296
      → read_chunk (file (length body)) spare (length pre) st
        ≡ on_chunk (a ∷ b ∷ c ∷ d ∷ []) (length body) body st
  unfolding read_chunk on_body
  read_chunk-file spare st h =
      rw (chunk_size-file (length body) h, slice-file (length body) spare)
        (ap (λ xs. on_chunk (take 4 xs) (length body) body st)
          (drop-length-append pre (chunk a b c d (length body) (body ++ rest))))

  -- A chunk that claims more than the buffer holds is a run-time panic.
  pub read_chunk-panic :
      (size : ℕ) (spare : Bytes) (st : Chunks)
      → size < 4294967296
      → length body + length rest + length spare < size
      → read_chunk (file size) spare (length pre) st ≡ err panic
  unfolding read_chunk on_body
  read_chunk-panic size spare st h k = rw (chunk_size-file size h, slice-file-none size spare k)

read_chunk-ne-out_of_fuel :
    (blob spare : Bytes) (i : ℕ) (st : Chunks) → read_chunk blob spare i st ≢ err out_of_fuel
unfolding read_chunk on_body on_chunk
read_chunk-ne-out_of_fuel blob spare i st = ground arith

-- The loop ends by its test: `fuel` rounds are enough.
pub walk-ne-out_of_fuel :
    (fuel : ℕ) (blob spare : Bytes) (i : ℕ) (st : Chunks)
    → 0 < fuel
    → length blob < i + fuel
    → walk fuel blob spare i st ≢ err out_of_fuel
unfolding walk
walk-ne-out_of_fuel zero blob spare i st p h = absurd (omega arith)
walk-ne-out_of_fuel (suc fuel) blob spare i st p h = elim (Bool-cases (leb (i + 8) (length blob))) [
  | inl more ↦
      let q = leb→le _ _ more in
      rw (more, walk)
        (>>=-ne-err (read_chunk blob spare i st) _ out_of_fuel
          (read_chunk-ne-out_of_fuel blob spare i st)
          λ st'.
            walk-ne-out_of_fuel fuel blob spare (next_chunk i (chunk_size blob i)) st' (omega arith)
              (ground arith))
  | inr done ↦ rw (done, walk) (λ e. cc)
]

pub walk-more :
    (fuel : ℕ) (blob spare : Bytes) (i : ℕ) (st : Chunks)
    → i + 8 ≤ length blob
    → walk (suc fuel) blob spare i st ≡ (
        read_chunk blob spare i st >>= λ st'.
        walk fuel blob spare (next_chunk i (chunk_size blob i)) st')
unfolding walk
walk-more fuel blob spare i st h = rw (le→leb (i + 8) (length blob) h, walk)

pub walk-done :
    (fuel : ℕ) (blob spare : Bytes) (i : ℕ) (st : Chunks)
    → length blob < i + 8
    → walk (suc fuel) blob spare i st ≡ ok st
unfolding walk
walk-done fuel blob spare i st h =
    let e : leb (i + 8) (length blob) ≡ false = ground arith in rw (e, walk)

-- Behind the checks of the first twelve bytes.
pub read_telephony_wav-walk :
    (blob spare : Bytes)
    → 44 ≤ length blob
    → text_eq (take 4 blob) (codes "RIFF") ≡ true
    → text_eq (take 4 (drop 8 blob)) (codes "WAVE") ≡ true
    → read_telephony_wav blob spare ≡ (walk (length blob) blob spare 12 no_chunks >>= check_format)
unfolding read_telephony_wav
read_telephony_wav-walk blob spare h r w =
    let e : ltb (length blob) 44 ≡ false = ground arith in rw (e, r, w)

check_format-ne-out_of_fuel : (st : Chunks) → check_format st ≢ err out_of_fuel
unfolding check_format
check_format-ne-out_of_fuel st = ground arith

-- The fuel of the loop over the chunks is enough for any file: the reader gives samples, an error
-- of the program or a panic, and never ends for want of fuel.
pub read_telephony_wav-ne-out_of_fuel :
    (blob spare : Bytes) → read_telephony_wav blob spare ≢ err out_of_fuel
unfolding read_telephony_wav
read_telephony_wav-ne-out_of_fuel blob spare = elim (Bool-cases (ltb (length blob) 44)) [
  | inl short ↦ rw (short, read_telephony_wav) (λ e. cc)
  | inr long ↦ ground (
    arith,
    >>=-ne-err (walk (length blob) blob spare 12 no_chunks) check_format out_of_fuel
        (walk-ne-out_of_fuel (length blob) blob spare 12 no_chunks (ground arith) (omega arith))
        check_format-ne-out_of_fuel,
  )
]
