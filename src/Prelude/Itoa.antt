-- ===== src/Prelude/Itoa.antt =====
-- strconv.Itoa on numbers, and strconv.Atoi on decimal digits.
use smoke_tester.Prelude.{
  inr, ◌≢◌, inl, Bool-cases, ℕ, zero, suc, ◌+◌, ◌-◌, ◌*◌, ◌/◌, ◌%◌, ◌<◌, ◌≡◌, refl, sym, ap, ◌∙◌,
  [], ◌∷◌, Option, none, some, arith, ltb, if◌then◌else◌,
}
use smoke_tester.Prelude.Text.{Text, is_digit}

-- The digits of `n` in front of `acc`; `fuel` rounds are enough for any `n ≤ fuel`.
digits_onto : ℕ → ℕ → Text → Text
digits_onto zero n acc = acc
digits_onto (suc fuel) n acc =
    let rest = digits_onto fuel (n / 10) ((b'0' + n % 10) ∷ acc) in
    if ltb n 10 then (b'0' + n) ∷ acc else rest

unfoldable pub itoa : ℕ → Text
unfolding digits_onto
itoa n = digits_onto (suc n) n []

-- The value of a run of digits behind `acc`.
unfoldable pub parse_digits : ℕ → Text → Option ℕ
parse_digits acc [] = some acc
parse_digits acc (c ∷ s) = if is_digit c then parse_digits (10 * acc + (c - b'0')) s else none

unfoldable pub atoi : Text → Option ℕ
unfolding parse_digits
atoi [] = none
atoi (c ∷ s) = parse_digits 0 (c ∷ s)

-- The digits of `n` are read back as `n`, whatever follows.
parse_digits-digits_onto :
    (fuel n : ℕ) (acc : Text)
    → n < fuel
    → parse_digits 0 (digits_onto fuel n acc) ≡ parse_digits n acc
unfolding parse_digits digits_onto
parse_digits-digits_onto zero n acc h = elim h [ ]
parse_digits-digits_onto (suc fuel) n acc h = elim (Bool-cases (ltb n 10)) [
  | inl one ↦ ground arith
  | inr more ↦
      let e : 10 * (n / 10) + n % 10 ≡ n = omega arith in
      rw more (
        parse_digits-digits_onto fuel (n / 10) ((b'0' + n % 10) ∷ acc) (ground arith)
        ∙ ground arith)
]

digits_onto-ne-nil : (fuel n : ℕ) (acc : Text) → acc ≢ [] → digits_onto fuel n acc ≢ []
unfolding digits_onto
digits_onto-ne-nil zero n acc h = h
digits_onto-ne-nil (suc fuel) n acc h = elim (Bool-cases (ltb n 10)) [
  | inl one ↦ rw (one, digits_onto) (λ e. cc)
  | inr more ↦
      rw (more, digits_onto) (digits_onto-ne-nil fuel (n / 10) ((b'0' + n % 10) ∷ acc) (λ e. cc))
]

pub itoa-ne-nil : (n : ℕ) → itoa n ≢ []
unfolding itoa digits_onto
itoa-ne-nil n = elim (Bool-cases (ltb n 10)) [
  | inl one ↦ rw (one, digits_onto) (λ e. cc)
  | inr more ↦
      rw (more, digits_onto) (digits_onto-ne-nil n (n / 10) ((b'0' + n % 10) ∷ []) (λ e. cc))
]

atoi-parse_digits : (s : Text) → s ≢ [] → atoi s ≡ parse_digits 0 s
unfolding atoi
atoi-parse_digits [] h = absurd (h refl)
atoi-parse_digits (c ∷ s) h = refl

-- A printed number is read back.
pub atoi-itoa : (n : ℕ) → atoi (itoa n) ≡ some n
unfolding itoa parse_digits
atoi-itoa n =
    atoi-parse_digits (itoa n) (itoa-ne-nil n) ∙ parse_digits-digits_onto (suc n) n [] (omega arith)

pub itoa-injective : (n m : ℕ) → itoa n ≡ itoa m → n ≡ m
itoa-injective n m e = let p : some n ≡ some m = sym (atoi-itoa n) ∙ (ap atoi e ∙ atoi-itoa m) in cc
