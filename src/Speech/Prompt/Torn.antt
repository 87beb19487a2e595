-- ===== src/Speech/Prompt/Torn.antt =====
-- A write of a prompt that stops half way.
use mathlib.Core.List.{append_assoc}
use smoke_tester.Prelude.{
  ◌+◌, ◌<◌, ◌≤◌, ◌≡◌, sym, ap, ◌∙◌, ◌++◌, true, false, Option, none, some, take, length, arith,
  take-length-append,
}
use smoke_tester.Prelude.Bytes.{Bytes}
use smoke_tester.Prelude.Dict.{Dict, lookup, insert, lookup-insert}
use smoke_tester.Prelude.Result.{ok, err}
use smoke_tester.Prelude.Text.{Text, is_empty, text_eq_refl}
use smoke_tester.Recording.Wav.{wav_header, wrap_wav}
use smoke_tester.Sip.Wav.{read_telephony_wav, panic}
use smoke_tester.Sip.Wav.RoundTrip.{read_telephony_wav-truncated}
use smoke_tester.Speech.Prompt.{
  Service, Disk, Written, torn, Reply, answered, write_failed, telephony_wav, write_telephony_wav,
  long_enough, fetch_lpcm, is_cached, store, generated, out_path, ensure_wav, voice, sent_requests,
}
use smoke_tester.Speech.Prompt.Cache.{telephony_wav-wrap_wav, ensure_wav-hit, ensure_wav-miss}

-- The file that is left of `kept ++ lost`.
abbrev pub torn_file : Bytes → Bytes → Bytes
torn_file kept lost = wav_header (length (kept ++ lost)) ++ kept

length-torn : (kept lost : Bytes) → 44 + length kept ≡ length (torn_file kept lost)
unfolding wav_header
length-torn kept lost = omega arith

torn_bytes :
    (kept lost : Bytes)
    → take (44 + length kept) (telephony_wav (kept ++ lost)) ≡ torn_file kept lost
unfolding wrap_wav
torn_bytes kept lost =
    ap (take (44 + length kept)) (
      telephony_wav-wrap_wav (kept ++ lost)
      ∙ sym (append_assoc (wav_header (length (kept ++ lost))) kept lost))
    ∙ (ap (λ n. take n (torn_file kept lost ++ lost)) (length-torn kept lost)
        ∙ take-length-append (torn_file kept lost) lost)

fetch_lpcm-answered :
    (body : Bytes) → 1600 ≤ length body → fetch_lpcm (answered 200 body none) ≡ ok body
unfolding fetch_lpcm long_enough
fetch_lpcm-answered body h = ground (arith, h)

stored-torn :
    (w : Written) (r : Reply) (out : Text) (files : Dict Bytes) (kept lost : Bytes) (e : Text)
    → w ≡ torn (44 + length kept) e
    → r ≡ answered 200 (kept ++ lost) none
    → 1600 ≤ length (kept ++ lost)
    → store w out (fetch_lpcm r) files
      ≡ (insert out (torn_file kept lost) files, err (write_failed e))
unfolding store write_telephony_wav
stored-torn w r out files kept lost e hw hr long =
    ap (λ x. store x out (fetch_lpcm r) files) hw
    ∙ (ap (λ x. store (torn (44 + length kept) e) out x files)
          (ap fetch_lpcm hr ∙ fetch_lpcm-answered (kept ++ lost) long)
        ∙ ap (λ b. (insert out b files, err (write_failed e))) (torn_bytes kept lost))

torn_file-is_cached :
    (kept lost : Bytes) → 0 < length kept → is_cached (some (torn_file kept lost)) ≡ true
unfolding is_cached
torn_file-is_cached kept lost h = ground (arith, length-torn kept lost)

module _ (s : Service) (model text : Text) (disk : Disk) where
  -- What the two calls leave: an error, then the path of the file that is left.
  abbrev pub torn_disk : Bytes → Bytes → Disk
  torn_disk kept lost = record {
    files = insert (out_path s model text) (torn_file kept lost) disk.files;
    requests = disk.requests + 1;
  }

  generated-torn :
      (m : Option Text) (kept lost : Bytes) (e : Text)
      → m ≡ none
      → s.speak (voice model) text ≡ answered 200 (kept ++ lost) none
      → s.write (out_path s model text) ≡ torn (44 + length kept) e
      → 1600 ≤ length (kept ++ lost)
      → generated m s (out_path s model text) (voice model) text disk
        ≡ (torn_disk kept lost, err (write_failed e))
  unfolding generated
  generated-torn (some x) kept lost e hm hr hw long = cc
  generated-torn none kept lost e hm hr hw long =
      let r : Reply = s.speak (voice model) text in
      ap (λ x. (record { files = x.0; requests = disk.requests + sent_requests r }, x.1))
        (stored-torn (s.write (out_path s model text)) r (out_path s model text) disk.files kept
          lost e hw hr long)
      ∙ ap
          (λ x. (
            record {
              files = insert (out_path s model text) (torn_file kept lost) disk.files;
              requests = disk.requests + x;
            },
            err (write_failed e),
          ))
          (ap sent_requests hr)

  -- A prompt of which os.WriteFile writes the header and a part of the samples before it fails:
  -- EnsureWAV gives the error, but the same call again gives the path, with no request, and the
  -- reader of SendWAV panics on the file, unless the buffer behind the file has room for the bytes
  -- that were lost.
  pub ensure_wav-torn :
      (kept lost spare : Bytes) (e : Text)
      → is_empty s.key ≡ false
      → is_cached (lookup (out_path s model text) disk.files) ≡ false
      → s.mkdir_error ≡ none
      → s.speak (voice model) text ≡ answered 200 (kept ++ lost) none
      → s.write (out_path s model text) ≡ torn (44 + length kept) e
      → 0 < length kept
      → 1600 ≤ length (kept ++ lost)
      → length (kept ++ lost) < 4294967296
      → length spare < length lost
      → (d : Disk) × (b : Bytes) × (ensure_wav s model text disk ≡ (d, err (write_failed e)))
        × (ensure_wav s model text d ≡ (d, ok (out_path s model text)))
        × (lookup (out_path s model text) d.files ≡ some b)
        × (read_telephony_wav b spare ≡ err panic)
  ensure_wav-torn kept lost spare e key new made hr hw some_kept long small room =
      let out : Text = out_path s model text in
      let found : lookup out (torn_disk kept lost).files ≡ some (torn_file kept lost) =
        ground (arith, lookup-insert out out (torn_file kept lost) disk.files, text_eq_refl out) in
      (
        torn_disk kept lost,
        torn_file kept lost,
        ensure_wav-miss s model text disk key new
            ∙ generated-torn s.mkdir_error kept lost e made hr hw long,
        ensure_wav-hit s model text (torn_disk kept lost) key
            (ap is_cached found ∙ torn_file-is_cached kept lost some_kept),
        found,
        read_telephony_wav-truncated kept lost spare small room,
      )
