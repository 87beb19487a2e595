-- ===== src/Recording/Wav.antt =====
-- `wrapWAV` of internal/recording/archive.go: the RIFF/WAVE header in front of raw samples.
use smoke_tester.Prelude.{ℕ, ◌+◌, ◌*◌, ◌/◌, ◌%◌, ◌^◌, ◌++◌, length}
use smoke_tester.Prelude.Bytes.{Bytes, le16, le32}
use smoke_tester.Prelude.Text.{codes}

abbrev pub sample_rate : ℕ
sample_rate = 8000

abbrev pub num_channels : ℕ
num_channels = 1

abbrev pub bits_per_sample : ℕ
bits_per_sample = 16

-- uint32(n) and uint16(n).
abbrev pub u32 : ℕ → ℕ
u32 n = n % 2 ^ 32

abbrev pub u16 : ℕ → ℕ
u16 n = n % 2 ^ 16

abbrev pub byte_rate : ℕ
byte_rate = u32 (sample_rate * num_channels * bits_per_sample / 8)

abbrev pub block_align : ℕ
block_align = u16 (num_channels * bits_per_sample / 8)

-- The 44 bytes that are written before the samples, `n` of them.
unfoldable pub wav_header : ℕ → Bytes
wav_header n =
    codes "RIFF"
    ++ (le32 (u32 (36 + n))
        ++ (codes "WAVE"
            ++ (codes "fmt "
                ++ (le32 16
                    ++ (le16 1
                        ++ (le16 num_channels
                            ++ (le32 sample_rate
                                ++ (le32 byte_rate
                                    ++ (le16 block_align
                                        ++ (le16 bits_per_sample
                                            ++ (codes "data" ++ le32 (u32 n))))))))))))

unfoldable pub wrap_wav : Bytes → Bytes
unfolding wav_header
wrap_wav pcm = wav_header (length pcm) ++ pcm
