-- ===== src/Sip/Resolver/Names.antt =====
-- Reading the question of a request: every well-formed name is read back, and the loop ends.
use mathlib.Core.List.{append-nil, append_assoc}
use smoke_tester.Prelude.{
  take-length-append, subst, false, ◌==◌, sym, true, ap, ◌∙◌, ltb, length-append, lt→ltb, All, ℕ,
  zero, suc, ◌+◌, ◌<◌, ◌≡◌, ◌≢◌, refl, List, [], ◌∷◌, ◌++◌, arith, length, take, drop,
}
use smoke_tester.Prelude.Text.{Text}
use smoke_tester.Prelude.Bytes.{Bytes}
use smoke_tester.Sip.Resolver.{
  truncated, Labels, next_label, Round, request_ends, zero_byte, too_long, label, labels, byte_at,
  out_of_fuel, read_labels,
}

-- The wire form of a name, and its dotted text.
abbrev pub encode_name : List Bytes → Bytes
encode_name [] = 0 ∷ []
encode_name (l ∷ ls) = length l ∷ (l ++ encode_name ls)

abbrev pub dotted : List Bytes → Text
dotted [] = []
dotted (l ∷ ls) = l ++ (b'.' ∷ dotted ls)

abbrev pub IsLabel : Bytes → Type 0
IsLabel l = 0 < length l

byte_at-append : (pre : Bytes) (b : ℕ) (rest : Bytes) → byte_at (pre ++ b ∷ rest) (length pre) ≡ b
byte_at-append [] b rest = refl
byte_at-append (x ∷ pre) b rest = byte_at-append pre b rest

label-moves :
    (req : Bytes) (off at : ℕ) (l : Bytes)
    → next_label req off ≡ label at l
    → (off < at) × (off < length req)
unfolding next_label
label-moves req off at l e = ground arith

after_round :
    (fuel : ℕ) (req : Bytes) (off : ℕ) (name : Text) (r : Round)
    → next_label req off ≡ r
    → ((at : ℕ) (l : Bytes)
        → r ≡ label at l
        → read_labels fuel req at (name ++ (l ++ b'.' ∷ [])) ≢ out_of_fuel)
    → read_labels (suc fuel) req off name ≢ out_of_fuel
unfolding read_labels
after_round fuel req off name request_ends e k = rw (e, read_labels) (λ p. cc)
after_round fuel req off name zero_byte e k = rw (e, read_labels) (λ p. cc)
after_round fuel req off name too_long e k = rw (e, read_labels) (λ p. cc)
after_round fuel req off name (label at l) e k = rw (e, read_labels) (k at l refl)

-- The loop ends by its own tests.
pub read_labels-ne-out_of_fuel :
    (fuel : ℕ) (req : Bytes) (off : ℕ) (name : Text)
    → 0 < fuel
    → length req < off + fuel
    → read_labels fuel req off name ≢ out_of_fuel
read_labels-ne-out_of_fuel zero req off name p h = absurd (omega arith)
read_labels-ne-out_of_fuel (suc fuel) req off name p h =
    after_round fuel req off name (next_label req off) refl λ at l e.
      let m = label-moves req off at l e in
      read_labels-ne-out_of_fuel fuel req at (name ++ (l ++ b'.' ∷ [])) (omega arith) (omega arith)

drop-suc-append :
    (pre : Bytes) (b : ℕ) (rest : Bytes) → drop (suc (length pre)) (pre ++ b ∷ rest) ≡ rest
drop-suc-append [] b rest = refl
drop-suc-append (x ∷ pre) b rest = drop-suc-append pre b rest

next_label-zero : (pre rest : Bytes) → next_label (pre ++ 0 ∷ rest) (length pre) ≡ zero_byte
unfolding next_label
next_label-zero pre rest = rw (
  lt→ltb (length pre) (length (pre ++ 0 ∷ rest)) (omega (arith, length-append pre (0 ∷ rest))),
  byte_at-append pre 0 rest,
)

next_label-label :
    (pre l rest : Bytes)
    → 0 < length l
    → next_label (pre ++ (length l ∷ (l ++ rest))) (length pre)
      ≡ label (length pre + 1 + length l) l
unfolding next_label
next_label-label pre l rest h =
    let e : length pre + 1 ≡ suc (length pre) = omega arith in
    let n = length-append pre (length l ∷ (l ++ rest)) in
    let m = length-append l rest in
    let inside : ltb (length pre) (length (pre ++ length l ∷ (l ++ rest))) ≡ true = ground arith in
    let some_bytes : (length l == 0) ≡ false = ground arith in
    let fits : ltb (length (pre ++ length l ∷ (l ++ rest))) (length pre + 1 + length l) ≡ false =
      ground arith in
    rw (inside, byte_at-append pre (length l) (l ++ rest), some_bytes, fits)
      (ap (λ xs. label (length pre + 1 + length l) (take (length l) xs))
          (ap (λ k. drop k (pre ++ length l ∷ (l ++ rest))) e
            ∙ drop-suc-append pre (length l) (l ++ rest))
        ∙ ap (label (length pre + 1 + length l)) (take-length-append l rest))

after_label : ℕ → Bytes → Text → ℕ → Round → Labels
after_label fuel req name off r = elim r [
  | request_ends ↦ labels name off
  | zero_byte ↦ labels name (off + 1)
  | too_long ↦ truncated
  | label at l ↦ read_labels fuel req at (name ++ (l ++ b'.' ∷ []))
]

-- Behind a prefix, the labels of an encoded name are read, up to and with the zero byte.
pub read_labels-encode_name :
    (ls : List Bytes) (fuel : ℕ) (pre rest : Bytes) (name : Text)
    → All IsLabel ls
    → length ls < fuel
    → read_labels fuel (pre ++ (encode_name ls ++ rest)) (length pre) name
      ≡ labels (name ++ dotted ls) (length pre + length (encode_name ls))
unfolding read_labels after_label
read_labels-encode_name ls zero pre rest name p h = elim h [ ]
read_labels-encode_name [] (suc fuel) pre rest name p h =
    rw (next_label-zero pre rest, read_labels)
      (ap (λ n. labels n (length pre + 1)) (sym (append-nil name)))
read_labels-encode_name (l ∷ ls) (suc fuel) pre rest name p h =
    let tail : Bytes = encode_name ls ++ rest in
    let req : Bytes = pre ++ (length l ∷ (l ++ tail)) in
    let pre' : Bytes = pre ++ (length l ∷ l) in
    let name' : Text = name ++ (l ++ b'.' ∷ []) in
    let regroup : req ≡ pre' ++ tail = simp append_assoc in
    let behind : length pre + 1 + length l ≡ length pre' =
      omega (arith, length-append pre (length l ∷ l)) in
    let next : read_labels fuel req (length pre + 1 + length l) name'
        ≡ labels (name' ++ dotted ls) (length pre' + length (encode_name ls)) =
      ap (λ r. read_labels fuel r (length pre + 1 + length l) name') regroup
      ∙ (ap (λ k. read_labels fuel (pre' ++ tail) k name') behind
          ∙ read_labels-encode_name ls fuel pre' rest name' p.1 (omega arith)) in
    let same_name : name' ++ dotted ls ≡ name ++ dotted (l ∷ ls) = simp append_assoc in
    let same_end : length pre' + length (encode_name ls)
        ≡ length pre + length (encode_name (l ∷ ls)) =
      omega (arith, length-append pre (length l ∷ l), length-append l (encode_name ls)) in
    subst
      (λ r.
        read_labels (suc fuel) r (length pre) name
        ≡ labels (name ++ dotted (l ∷ ls)) (length pre + length (encode_name (l ∷ ls))))
      (simp append_assoc)
      (ap (λ r. after_label fuel req name (length pre) r) (next_label-label pre l tail p.0)
        ∙ (next
            ∙ (ap (λ n. labels n (length pre' + length (encode_name ls))) same_name
                ∙ ap (labels (name ++ dotted (l ∷ ls))) same_end)))
