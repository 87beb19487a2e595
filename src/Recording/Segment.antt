-- ===== src/Recording/Segment.antt =====
-- What `sanitize` promises: its result is one path segment that stays below its folder.
use smoke_tester.Prelude.{
  ℕ, ◌≡◌, ◌≢◌, inl, inr, refl, Bool, true, false, ◌&&◌, [], ◌∷◌, map, arith, if◌then◌else◌,
  Bool-cases, drop, All,
}
use smoke_tester.Prelude.Text.{Text, codes, is_empty, trim_space}
use smoke_tester.Prelude.Text.{trim, trim_left, trim_right}
use smoke_tester.Recording.Sanitize.{replace_slash, is_safe, replace_unsafe, is_edge, sanitize}

abbrev IsSafe : ℕ → Type 0
IsSafe c = is_safe c ≡ true

abbrev HeadFails : (ℕ → Bool) → Text → Type 0
HeadFails p [] = Unit
HeadFails p (c ∷ s) = p c ≡ false

abbrev LastFails : (ℕ → Bool) → Text → Type 0
LastFails p [] = Unit
LastFails p (c ∷ []) = p c ≡ false
LastFails p (c ∷ d ∷ s) = LastFails p (d ∷ s)

-- A segment of letters, digits, dots, underscores and dashes that neither begins nor ends with a
-- dot or a dash: it holds no separator, and is not `.` or `..`.
pub record IsSegment (s : Text) : Type 0 where
  pub ne_nil : s ≢ []
  pub safe : All IsSafe s
  pub head : HeadFails is_edge s
  pub last : LastFails is_edge s

module _ (p : ℕ → Bool) where
  trim_left-HeadFails : (s : Text) → HeadFails p (trim_left p s)
  unfolding trim_left
  trim_left-HeadFails [] = tt
  trim_left-HeadFails (c ∷ s) = elim (Bool-cases (p c)) [
    | inl edge ↦ rw (edge, trim_left) (trim_left-HeadFails s)
    | inr stays ↦ rw (stays, trim_left) stays
  ]

  trim_right-HeadFails : (s : Text) → HeadFails p s → HeadFails p (trim_right p s)
  unfolding trim_right
  trim_right-HeadFails [] h = tt
  trim_right-HeadFails (c ∷ s) h = rw (h, trim_right) h

  LastFails-cons :
      (c : ℕ) (s : Text) → LastFails p s → p c && is_empty s ≡ false → LastFails p (c ∷ s)
  LastFails-cons c [] h k = ground arith
  LastFails-cons c (d ∷ s) h k = h

  trim_right-LastFails : (s : Text) → LastFails p (trim_right p s)
  unfolding trim_right
  trim_right-LastFails [] = tt
  trim_right-LastFails (c ∷ s) = elim (Bool-cases (p c && is_empty (trim_right p s))) [
    | inl edge ↦ rw (edge, trim_right) tt
    | inr stays ↦
        rw (stays, trim_right) (LastFails-cons c (trim_right p s) (trim_right-LastFails s) stays)
  ]

module _ (p : ℕ → Bool) (P : ℕ → Type 0) where
  All-trim_left : (s : Text) → All P s → All P (trim_left p s)
  unfolding trim_left
  All-trim_left [] h = tt
  All-trim_left (c ∷ s) h = elim (Bool-cases (p c)) [
    | inl edge ↦ rw (edge, trim_left) (All-trim_left s h.1)
    | inr stays ↦ rw (stays, trim_left) h
  ]

  All-trim_right : (s : Text) → All P s → All P (trim_right p s)
  unfolding trim_right
  All-trim_right [] h = tt
  All-trim_right (c ∷ s) h = elim (Bool-cases (p c && is_empty (trim_right p s))) [
    | inl edge ↦ rw (edge, trim_right) tt
    | inr stays ↦ rw (stays, trim_right) (h.0, All-trim_right s h.1)
  ]

All-dashed : (b : Bool) (t : Text) → All IsSafe t → All IsSafe (if b then t else b'-' ∷ t)
unfolding is_safe
All-dashed true t h = h
All-dashed false t h = (refl, h)

All-replace_unsafe : (inside : Bool) (s : Text) → All IsSafe (replace_unsafe inside s)
unfolding replace_unsafe
All-replace_unsafe inside [] = tt
All-replace_unsafe inside (c ∷ s) = elim (Bool-cases (is_safe c)) [
  | inl keep ↦ rw (keep, replace_unsafe) (keep, All-replace_unsafe false s)
  | inr drop ↦
      rw (drop, replace_unsafe)
        (All-dashed inside (replace_unsafe true s) (All-replace_unsafe true s))
]

or_leg :
    (t : Text)
    → All IsSafe t
    → HeadFails is_edge t
    → LastFails is_edge t
    → IsSegment (if is_empty t then codes "leg" else t)
unfolding is_safe is_edge
or_leg [] a h l = record {
  ne_nil = λ e. cc;
  safe = (refl, (refl, (refl, tt)));
  head = refl;
  last = refl;
}
or_leg (c ∷ t) a h l = record { ne_nil = λ e. cc; safe = a; head = h; last = l }

trim-IsSegment :
    (t : Text)
    → All IsSafe t
    → IsSegment (if is_empty (trim is_edge t) then codes "leg" else trim is_edge t)
unfolding trim
trim-IsSegment t h =
    let left : Text = trim_left is_edge t in
    or_leg (trim_right is_edge left)
      (All-trim_right is_edge IsSafe left (All-trim_left is_edge IsSafe t h))
      (trim_right-HeadFails is_edge left (trim_left-HeadFails is_edge t))
      (trim_right-LastFails is_edge left)

-- Whatever the name of the test or the role, `sanitize` makes a path segment of it.
sanitize-IsSegment : (s : Text) → IsSegment (sanitize s)
unfolding sanitize
sanitize-IsSegment s =
    let t : Text = map replace_slash (map replace_slash (trim_space s)) in
    trim-IsSegment (replace_unsafe false t) (All-replace_unsafe false t)
