-- ===== src/Sip/SessionExpires/RoundTrip.antt =====
-- A printed Session-Expires header is read back.
use smoke_tester.Prelude.{
  ℕ, ◌^◌, ◌<◌, ◌≡◌, refl, ap, ◌∙◌, Bool, true, false, some, [], ◌∷◌, ◌++◌, arith, Bool-cases, inl,
  inr, All, All-append, ◌==◌, lt→ltb, not, ◌||◌, map,
}
use smoke_tester.Prelude.Itoa.{itoa, atoi, atoi-itoa, parse_digits}
use smoke_tester.Prelude.Text.{
  Text, codes, split, cut, trim_space, is_space, lower, equal_fold, Letters, is_digit, text_eq_refl,
}
use smoke_tester.Prelude.Trim.{trim-none, split-none, split-append, itoa-digits, All-map}
use smoke_tester.Sip.SessionExpires.{
  atoi_int, positive, refresher_from, refresher_of, with_delta, from_parts, parse_session_expires,
}

-- Neither a space nor a semicolon.
abbrev pub is_plain : ℕ → Bool
is_plain c = not (is_space c || c == b';')

atoi_int-digits : (s : Text) (n : ℕ) → n < 2 ^ 63 → atoi s ≡ some n → atoi_int s ≡ some n
unfolding atoi_int positive atoi parse_digits
atoi_int-digits [] n h e = cc
atoi_int-digits (c ∷ s) n h e = elim (Bool-cases (is_digit c)) [
  | inl digit ↦
      let plus : (c == b'+') ≡ false = ground arith in
      let minus : (c == b'-') ≡ false = ground arith in
      rw (plus, minus) (rw e (rw (lt→ltb n (2 ^ 63) h) refl))
  | inr other ↦ cc (rw other at e)
]

digit-not_space : (c : ℕ) → is_digit c ≡ true → is_space c ≡ false
unfolding is_space
digit-not_space c h = ground arith

digit-not_semicolon : (c : ℕ) → is_digit c ≡ true → (c == b';') ≡ false
digit-not_semicolon c h = ground arith

plain-not_space : (c : ℕ) → is_plain c ≡ true → is_space c ≡ false
plain-not_space c h = ground arith

plain-not_semicolon : (c : ℕ) → is_plain c ≡ true → (c == b';') ≡ false
plain-not_semicolon c h = ground arith

delta-read : (n : ℕ) → n < 2 ^ 63 → atoi_int (trim_space (itoa n)) ≡ some n
unfolding trim_space
delta-read n h =
    ap atoi_int (
      trim-none is_space (itoa n) (
        All-map (λ c. is_digit c ≡ true) (λ c. is_space c ≡ false) (itoa n) digit-not_space
          (itoa-digits n)))
    ∙ atoi_int-digits (itoa n) n h (atoi-itoa n)

refresher-read :
    (u : Letters) (r : Text)
    → All (λ c. is_plain c ≡ true) r
    → refresher_from u [] ((codes "refresher=" ++ r) ∷ []) ≡ lower u r
unfolding refresher_from refresher_of trim_space cut equal_fold
refresher-read u r h = rw (text_eq_refl (map u.fold (codes "refresher"))) (
    ap (lower u) (
      trim-none is_space r
        (All-map (λ c. is_plain c ≡ true) (λ c. is_space c ≡ false) r plain-not_space h)))

no_semicolon : All (λ c. (c == b';') ≡ false) (codes "refresher=")
no_semicolon = (refl, (refl, (refl, (refl, (refl, (refl, (refl, (refl, (refl, (refl, tt))))))))))

-- A header of a number of seconds below 2 ^ 63 and a refresher, which holds no space and no
-- semicolon, is parsed to this number and the refresher in lower case.
pub parse_session_expires-print :
    (u : Letters) (n : ℕ) (r : Text)
    → n < 2 ^ 63
    → All (λ c. is_plain c ≡ true) r
    → parse_session_expires u (itoa n ++ (b';' ∷ (codes "refresher=" ++ r))) ≡ some (n, lower u r)
unfolding parse_session_expires from_parts with_delta
parse_session_expires-print u n r h p =
    let pieces : split b';' (itoa n ++ (b';' ∷ (codes "refresher=" ++ r)))
        ≡ itoa n ∷ (codes "refresher=" ++ r) ∷ [] =
      split-append b';' (itoa n) (codes "refresher=" ++ r) (
        All-map (λ c. is_digit c ≡ true) (λ c. (c == b';') ≡ false) (itoa n) digit-not_semicolon
          (itoa-digits n))
      ∙ ap (λ ps. itoa n ∷ ps)
          (split-none b';' (codes "refresher=" ++ r) (
            All-append (λ c. (c == b';') ≡ false) (codes "refresher=") r no_semicolon
              (All-map (λ c. is_plain c ≡ true) (λ c. (c == b';') ≡ false) r plain-not_semicolon
                p))) in
    ap (from_parts u) pieces
    ∙ (ap (λ d. with_delta d (refresher_from u [] ((codes "refresher=" ++ r) ∷ [])))
          (delta-read n h)
        ∙ ap (λ x. some (n, x)) (refresher-read u r p))
