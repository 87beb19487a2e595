-- ===== src/Config/Knobs/Ttl.antt =====
-- ORPHAN_TTL_HOURS: which numbers of hours the Duration holds.
use smoke_tester.Config.Knobs.{atoi_nonneg, orphan_ttl, hours, hour, in_int64}
use smoke_tester.Prelude.{
  ℕ, ◌*◌, ◌%◌, ◌^◌, ◌≤◌, ◌<◌, ◌≡◌, ◌≢◌, refl, some, [], ◌∷◌, arith, Bool-cases, inl, inr, false,
  lt→ltb, ◌==◌,
}
use smoke_tester.Prelude.Itoa.{itoa, atoi, parse_digits, atoi-itoa, itoa-ne-nil}
use smoke_tester.Prelude.Result.{ok}
use smoke_tester.Prelude.Text.{Text, is_digit}

atoi_nonneg-atoi : (s : Text) (n : ℕ) → n < 2 ^ 63 → atoi s ≡ some n → atoi_nonneg s ≡ some n
unfolding atoi_nonneg in_int64 atoi parse_digits
atoi_nonneg-atoi [] n h e = cc
atoi_nonneg-atoi (c ∷ s) n h e = elim (Bool-cases (is_digit c)) [
  | inl digit ↦
      let plus : (c == b'+') ≡ false = ground arith in
      let minus : (c == b'-') ≡ false = ground arith in
      rw (plus, minus) (rw e (rw (lt→ltb n (2 ^ 63) h) refl))
  | inr other ↦ cc (rw other at e)
]

hours-read :
    (n : ℕ) (v : Text)
    → n < 2 ^ 63
    → v ≢ []
    → atoi v ≡ some n
    → orphan_ttl v ≡ ok (n * hour % 2 ^ 64)
unfolding orphan_ttl hours
hours-read n [] h ne e = absurd (ne refl)
hours-read n (c ∷ s) h ne e = rw (atoi_nonneg-atoi (c ∷ s) n h e) refl

-- A number of hours below 2 ^ 63 is accepted, and ttl is the Duration that it gives: as long as it
-- is at most 2562047, ttl is this many hours, and not negative; from there up to 5124095 hours the
-- product overflows, and ttl is negative.
pub ttl_bounds :
    (n : ℕ)
    → n < 2 ^ 63
    → (ttl : ℕ) × (orphan_ttl (itoa n) ≡ ok ttl)
      × (n ≤ 2_562_047 → (ttl ≡ n * hour) × (ttl < 2 ^ 63))
      × (2_562_047 < n → n ≤ 5_124_095 → 2 ^ 63 ≤ ttl)
ttl_bounds n h = (
  n * hour % 2 ^ 64,
  hours-read n (itoa n) h (itoa-ne-nil n) (atoi-itoa n),
  λ small. (omega arith, omega arith),
  λ big below. omega arith,
)
