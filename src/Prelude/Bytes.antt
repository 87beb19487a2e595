-- ===== src/Prelude/Bytes.antt =====
-- Byte strings: encoding/binary in both orders, and slicing with Go's bounds check.
use smoke_tester.Prelude.{
  ℕ, ◌+◌, ◌-◌, ◌*◌, ◌/◌, ◌%◌, ◌<◌, ◌≡◌, ◌&&◌, List, [], ◌∷◌, ◌++◌, Option, none, some, arith, leb,
  le→leb, if◌then◌else◌, length, take, drop, length-append, take-length-append, drop-length-append,
}

abbrev pub Bytes : Type 0
Bytes = List ℕ

abbrev pub le16 : ℕ → Bytes
le16 n = (n % 256) ∷ (n / 256 % 256) ∷ []

abbrev pub le32 : ℕ → Bytes
le32 n = (n % 256) ∷ (n / 256 % 256) ∷ (n / 65536 % 256) ∷ (n / 16777216 % 256) ∷ []

abbrev pub be16 : ℕ → Bytes
be16 n = (n / 256 % 256) ∷ (n % 256) ∷ []

-- The readers look at the first bytes; the callers see that there are enough.
abbrev pub read_le16 : Bytes → ℕ
read_le16 (a ∷ b ∷ _) = a + 256 * b
read_le16 _ = 0

abbrev pub read_le32 : Bytes → ℕ
read_le32 (a ∷ b ∷ c ∷ d ∷ _) = a + 256 * b + 65536 * c + 16777216 * d
read_le32 _ = 0

abbrev pub read_be16 : Bytes → ℕ
read_be16 (a ∷ b ∷ _) = 256 * a + b
read_be16 _ = 0

pub read_le32-le32 : (n : ℕ) (rest : Bytes) → n < 4294967296 → read_le32 (le32 n ++ rest) ≡ n
read_le32-le32 n rest h = omega arith

pub read_be16-be16 : (n : ℕ) (rest : Bytes) → n < 65536 → read_be16 (be16 n ++ rest) ≡ n
read_be16-be16 n rest h = omega arith

-- xs[lo:hi]; `none` is the panic of a slice out of range.
unfoldable pub slice {ℓ} : {A : Type ℓ} → List A → ℕ → ℕ → Option (List A)
slice xs lo hi =
    if leb lo hi && leb hi (length xs) then some (take (hi - lo) (drop lo xs)) else none

pub slice-append {ℓ} :
    {A : Type ℓ} (pre mid post : List A)
    → slice (pre ++ (mid ++ post)) (length pre) (length pre + length mid) ≡ some mid
unfolding slice
slice-append pre mid post =
    rw
      (
        le→leb (length pre) (length pre + length mid) (omega arith),
        le→leb (length pre + length mid) (length (pre ++ (mid ++ post)))
            (omega (arith, length-append pre (mid ++ post), length-append mid post)),
        drop-length-append pre (mid ++ post),
      )
      (let e : length pre + length mid - length pre ≡ length mid = omega arith in
        rw (e, take-length-append mid post))
