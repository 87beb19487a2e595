-- ===== src/Speech/Transcript/Words.antt =====
-- A normalized text is its words, with one space between them.
use smoke_tester.Prelude.{
  ℕ, ◌≡◌, refl, sym, ap, ◌∙◌, Bool, true, false, not, ◌==◌, List, [], ◌∷◌, ◌++◌, map, if◌then◌else◌,
  arith, Bool-cases, inl, inr, select,
}
use mathlib.Core.List.{append_assoc, append-nil}
use smoke_tester.Prelude.Text.{
  Text, is_empty, is_space, split, add_char, trim_left, trim_right, trim, trim_space,
}
use smoke_tester.Speech.Transcript.{is_word, is_blank, written, normalize_loop, normalize}

-- The words of a text, read from an independent description: only letters, digits and blanks count,
-- and the words are the non-empty pieces between blanks.
kept : Text → Text
kept [] = []
kept (r ∷ s) =
    let rest = kept s in if is_word r then r ∷ rest else if is_blank r then b' ' ∷ rest else rest

non_empty : Text → Bool
non_empty w = not (is_empty w)

pub words : Text → List Text
unfolding kept split select non_empty
words s = select non_empty (split b' ' (kept s))

-- Words with a space before each, and words with a space between them.
after : List Text → Text
after [] = []
after (w ∷ ws) = b' ' ∷ (w ++ after ws)

pub unwords : List Text → Text
unfolding after
unwords [] = []
unwords (w ∷ ws) = w ++ after ws

-- The rest of a text in the middle of a word, of which the pieces are given.
finish : List Text → Text
unfolding after select non_empty
finish [] = []
finish (p ∷ ps) = p ++ after (select non_empty ps)

finish-add_char : (r : ℕ) (ps : List Text) → finish (add_char false r ps) ≡ r ∷ finish ps
unfolding finish add_char after select
finish-add_char r [] = refl
finish-add_char r (p ∷ ps) = refl

unwords-add_char :
    (r : ℕ) (ps : List Text) → unwords (select non_empty (add_char false r ps)) ≡ r ∷ finish ps
unfolding finish add_char unwords after select non_empty
unwords-add_char r [] = refl
unwords-add_char r (p ∷ ps) = refl

-- A space that is trimmed when no word follows.
after-trimmed :
    (ps : List Text)
    → (if is_empty (unwords (select non_empty ps))
        then []
        else b' ' ∷ unwords (select non_empty ps))
      ≡ after (select non_empty ps)
unfolding unwords after select non_empty
after-trimmed [] = refl
after-trimmed ([] ∷ ps) = after-trimmed ps
after-trimmed ((c ∷ w) ∷ ps) = refl

-- What the loop adds to the builder.
added : Bool → Text → Text
unfolding written
added prev_space [] = []
added prev_space (r ∷ s) = let w = written prev_space r in w.1 ++ added w.0 s

normalize_loop-added :
    (prev_space : Bool) (b s : Text) → normalize_loop prev_space b s ≡ b ++ added prev_space s
unfolding normalize_loop added
normalize_loop-added prev_space b [] = sym (append-nil b)
normalize_loop-added prev_space b (r ∷ s) =
    let w : Bool × Text = written prev_space r in
    normalize_loop-added w.0 (b ++ w.1) s ∙ append_assoc b w.1 (added w.0 s)

abbrev Trimmed : Text → Type 0
Trimmed s =
    (trim_right is_space (added true s) ≡ unwords (words s))
    × (trim_right is_space (added false s) ≡ finish (split b' ' (kept s)))

word_is_space : (r : ℕ) → is_word r ≡ true → is_space r ≡ false
unfolding is_space
word_is_space r h = ground (arith, h)

word_is_blank : (r : ℕ) → is_word r ≡ true → (r == b' ') ≡ false
word_is_blank r h = ground (arith, h)

word-Trimmed : (r : ℕ) (s : Text) → is_word r ≡ true → Trimmed s → Trimmed (r ∷ s)
unfolding added written kept split words trim_right is_space
word-Trimmed r s h (a, b) =
    let ps : List Text = split b' ' (kept s) in
    rw (h, word_is_space r h, word_is_blank r h)
      (ap (r ∷◌) b ∙ sym (unwords-add_char r ps), ap (r ∷◌) b ∙ sym (finish-add_char r ps))

blank-Trimmed :
    (r : ℕ) (s : Text) → is_word r ≡ false → is_blank r ≡ true → Trimmed s → Trimmed (r ∷ s)
unfolding added written kept split words trim_right is_space finish
blank-Trimmed r s h k (a, b) =
    rw (h, k)
      (a, ap (λ x. if is_empty x then [] else b' ' ∷ x) a ∙ after-trimmed (split b' ' (kept s)))

other-Trimmed :
    (r : ℕ) (s : Text) → is_word r ≡ false → is_blank r ≡ false → Trimmed s → Trimmed (r ∷ s)
unfolding added written kept split words trim_right is_space
other-Trimmed r s h k (a, b) = rw (h, k) (a, b)

added-Trimmed : (s : Text) → Trimmed s
unfolding added words kept split select trim_right unwords finish after
added-Trimmed [] = (refl, refl)
added-Trimmed (r ∷ s) = elim (Bool-cases (is_word r)) [
  | inl h ↦ word-Trimmed r s h (added-Trimmed s)
  | inr h ↦ elim (Bool-cases (is_blank r)) [
    | inl k ↦ blank-Trimmed r s h k (added-Trimmed s)
    | inr k ↦ other-Trimmed r s h k (added-Trimmed s)
  ]
]

-- After a space the loop writes no space first.
added-left : (s : Text) → trim_left is_space (added true s) ≡ added true s
unfolding added written trim_left
added-left [] = refl
added-left (r ∷ s) = elim (Bool-cases (is_word r)) [
  | inl h ↦ rw (h, word_is_space r h) refl
  | inr h ↦ elim (Bool-cases (is_blank r)) [
    | inl k ↦ rw (h, k) (added-left s)
    | inr k ↦ rw (h, k) (added-left s)
  ]
]

-- Whatever the conversion to lower case does, Normalize gives the words of the converted text with
-- one space between two of them, where a word is what stands between blanks once all but letters,
-- digits and blanks is dropped.
pub normalize-words :
    (to_lower : ℕ → ℕ) (s : Text) → normalize to_lower s ≡ unwords (words (map to_lower s))
unfolding normalize trim_space trim
normalize-words to_lower s =
    let t : Text = map to_lower s in
    ap trim_space (normalize_loop-added true [] t)
    ∙ (ap (trim_right is_space) (added-left t) ∙ (added-Trimmed t).0)
