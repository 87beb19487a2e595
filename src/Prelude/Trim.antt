-- ===== src/Prelude/Trim.antt =====
-- Trimming and splitting text that holds nothing to trim or to split at.
use smoke_tester.Prelude.{
  ℕ, ◌+◌, ◌*◌, ◌-◌, ◌≡◌, refl, ap, ◌∙◌, Bool, true, false, some, [], ◌∷◌, ◌++◌, arith, Bool-cases,
  inl, inr, All, ◌==◌,
}
use smoke_tester.Prelude.Itoa.{itoa, parse_digits, atoi, atoi-itoa}
use smoke_tester.Prelude.Text.{Text, trim, trim_left, trim_right, split, add_char, is_digit}

trim_left-none : (p : ℕ → Bool) (s : Text) → All (λ c. p c ≡ false) s → trim_left p s ≡ s
unfolding trim_left
trim_left-none p [] h = refl
trim_left-none p (c ∷ s) h = rw (h.0, trim_left) refl

trim_right-none : (p : ℕ → Bool) (s : Text) → All (λ c. p c ≡ false) s → trim_right p s ≡ s
unfolding trim_right
trim_right-none p [] h = refl
trim_right-none p (c ∷ s) h = rw (h.0, trim_right) (ap (λ t. c ∷ t) (trim_right-none p s h.1))

pub trim-none : (p : ℕ → Bool) (s : Text) → All (λ c. p c ≡ false) s → trim p s ≡ s
unfolding trim
trim-none p s h = ap (trim_right p) (trim_left-none p s h) ∙ trim_right-none p s h

pub All-map : (P Q : ℕ → Type 0) (s : Text) → ((c : ℕ) → P c → Q c) → All P s → All Q s
All-map P Q [] f h = tt
All-map P Q (c ∷ s) f h = (f c h.0, All-map P Q s f h.1)

pub split-none : (c : ℕ) (s : Text) → All (λ x. (x == c) ≡ false) s → split c s ≡ s ∷ []
unfolding split add_char
split-none c [] h = refl
split-none c (x ∷ s) h = rw (h.0, split) (ap (add_char false x) (split-none c s h.1))

pub split-append :
    (c : ℕ) (a s : Text) → All (λ x. (x == c) ≡ false) a → split c (a ++ (c ∷ s)) ≡ a ∷ split c s
unfolding split add_char
split-append c [] s h = ground arith
split-append c (x ∷ a) s h = rw (h.0, split) (ap (add_char false x) (split-append c a s h.1))

parse_digits-digits :
    (acc n : ℕ) (s : Text) → parse_digits acc s ≡ some n → All (λ c. is_digit c ≡ true) s
unfolding parse_digits
parse_digits-digits acc n [] e = tt
parse_digits-digits acc n (c ∷ s) e = elim (Bool-cases (is_digit c)) [
  | inl digit ↦ (digit, parse_digits-digits (10 * acc + (c - b'0')) n s (rw digit at e))
  | inr other ↦ cc (rw other at e)
]

atoi-digits : (n : ℕ) (s : Text) → atoi s ≡ some n → All (λ c. is_digit c ≡ true) s
unfolding atoi
atoi-digits n [] e = tt
atoi-digits n (c ∷ s) e = parse_digits-digits 0 n (c ∷ s) e

pub itoa-digits : (n : ℕ) → All (λ c. is_digit c ≡ true) (itoa n)
itoa-digits n = atoi-digits n (itoa n) (atoi-itoa n)
