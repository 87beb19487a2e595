-- ===== src/Prelude/Text.antt =====
-- Text as the list of its characters' numbers (bytes or code points), with the functions of the
-- Go packages strings and strconv that the program calls.
use Prim.Native.Nat.{ℕ, ◌+◌}
use Prim.Native.Char.{code}
use Prim.Native.String.{String}
use mathlib.Core.Path.{◌≡◌, refl}
use mathlib.Core.Logic.{◌↔◌}
use mathlib.Core.Bool.{Bool, true, false, ◌&&◌, ◌||◌}
use mathlib.Core.List.{List, [], ◌∷◌, ◌++◌, map}
use mathlib.Core.Option.{Option, none, some}
use native.Mathlib.Omega.{arith}
use smoke_tester.Prelude.Tests.{leb, ◌==◌, if◌then◌else◌}

abbrev pub Text : Type 0
Text = List ℕ

abbrev pub codes : String → Text
codes String.[] = []
codes (String.◌∷◌ c s) = code c ∷ codes s

unfoldable pub text_eq : Text → Text → Bool
text_eq [] [] = true
text_eq (x ∷ xs) (y ∷ ys) = x == y && text_eq xs ys
text_eq _ _ = false

text_eq→eq : (a b : Text) → text_eq a b ≡ true → a ≡ b
unfolding text_eq
text_eq→eq [] [] h = refl
text_eq→eq [] (y ∷ ys) h = cc
text_eq→eq (x ∷ xs) [] h = cc
text_eq→eq (x ∷ xs) (y ∷ ys) h = ground (arith, text_eq→eq xs ys)

pub text_eq_refl : (a : Text) → text_eq a a ≡ true
unfolding text_eq
text_eq_refl [] = refl
text_eq_refl (x ∷ xs) = ground (arith, text_eq_refl xs)

pub text_eq_iff : (a b : Text) → (text_eq a b ≡ true) ↔ (a ≡ b)
text_eq_iff a b = (text_eq→eq a b, λ e. rw e (text_eq_refl b))

abbrev pub is_empty : Text → Bool
is_empty [] = true
is_empty (_ ∷ _) = false

abbrev pub is_digit : ℕ → Bool
is_digit c = leb b'0' c && leb c b'9'

abbrev pub is_upper : ℕ → Bool
is_upper c = leb b'A' c && leb c b'Z'

abbrev pub is_lower : ℕ → Bool
is_lower c = leb b'a' c && leb c b'z'

-- unicode.IsSpace.
unfoldable pub is_space : ℕ → Bool
is_space c =
    (leb 9 c && leb c 13)
    || c == 32
    || c == 0x85
    || c == 0xa0
    || c == 0x1680
    || (leb 0x2000 c && leb c 0x200a)
    || c == 0x2028
    || c == 0x2029
    || c == 0x202f
    || c == 0x205f
    || c == 0x3000

-- strings.TrimLeftFunc, TrimRightFunc and TrimFunc.
unfoldable pub trim_left : (ℕ → Bool) → Text → Text
trim_left p [] = []
trim_left p (c ∷ cs) = let rest = trim_left p cs in if p c then rest else c ∷ cs

-- A character stays if it fails the test or another after it stays.
unfoldable pub trim_right : (ℕ → Bool) → Text → Text
trim_right p [] = []
trim_right p (c ∷ cs) = let rest = trim_right p cs in if p c && is_empty rest then [] else c ∷ rest

unfoldable pub trim : (ℕ → Bool) → Text → Text
unfolding trim_left trim_right
trim p s = trim_right p (trim_left p s)

unfoldable pub trim_space : Text → Text
unfolding trim is_space
trim_space s = trim is_space s

-- The tables of the package unicode: ToLower, and one character for all those that SimpleFold leads
-- to from each other.
pub record Letters : Type 0 where
  pub to_lower : ℕ → ℕ
  pub fold : ℕ → ℕ

-- strings.ToLower and strings.EqualFold.
unfoldable pub lower : Letters → Text → Text
lower u s = map u.to_lower s

unfoldable pub equal_fold : Letters → Text → Text → Bool
unfolding text_eq
equal_fold u a b = text_eq (map u.fold a) (map u.fold b)

-- What the tables say of the ASCII letters.
unfoldable pub to_lower : ℕ → ℕ
to_lower c = if is_upper c then c + 32 else c

abbrev pub ascii : Letters
unfolding to_lower
ascii = record { to_lower = to_lower; fold = to_lower }

unfoldable pub has_prefix : Text → Text → Bool
has_prefix s [] = true
has_prefix [] (p ∷ ps) = false
has_prefix (c ∷ s) (p ∷ ps) = c == p && has_prefix s ps

pub has_prefix_append : (p s : Text) → has_prefix (p ++ s) p ≡ true
unfolding has_prefix
has_prefix_append [] s = refl
has_prefix_append (x ∷ p) s = ground (arith, has_prefix_append p s)

-- strings.TrimSuffix(s, string(c)), one character.
unfoldable pub trim_suffix : ℕ → Text → Text
trim_suffix c [] = []
trim_suffix c (x ∷ []) = if x == c then [] else x ∷ []
trim_suffix c (x ∷ y ∷ s) = x ∷ trim_suffix c (y ∷ s)

unfoldable pub contains : Text → ℕ → Bool
contains [] c = false
contains (x ∷ s) c = x == c || contains s c

unfoldable pub add_char : Bool → ℕ → List Text → List Text
add_char true x ps = [] ∷ ps
add_char false x [] = (x ∷ []) ∷ []
add_char false x (p ∷ ps) = (x ∷ p) ∷ ps

-- strings.Split at one character: the pieces, of which there is always one.
unfoldable pub split : ℕ → Text → List Text
unfolding add_char
split c [] = [] ∷ []
split c (x ∷ s) = add_char (x == c) x (split c s)

unfoldable pub after_char : ℕ → Option (Text × Text) → Option (Text × Text)
after_char x none = none
after_char x (some (a, b)) = some (x ∷ a, b)

-- strings.IndexByte and the two slices around it: what stands before and after the first `c`.
unfoldable pub cut : ℕ → Text → Option (Text × Text)
unfolding after_char
cut c [] = none
cut c (x ∷ s) = if x == c then some ([], s) else after_char x (cut c s)

is_slash : ℕ → Bool
is_slash c = c == b'/'

last_piece : List Text → Text
last_piece [] = []
last_piece (p ∷ []) = p
last_piece (p ∷ q ∷ ps) = last_piece (q ∷ ps)

-- filepath.Base.
unfoldable pub base : Text → Text
unfolding is_slash last_piece trim_right split
base s =
    if is_empty s
    then codes "."
    else let t = trim_right is_slash s in
      if is_empty t then codes "/" else last_piece (split b'/' t)

-- strings.TrimSuffix(s, filepath.Ext(s)) of a name with no separator in it.
unfoldable pub trim_ext : Text → Text
unfolding contains
trim_ext [] = []
trim_ext (c ∷ s) =
    let rest = trim_ext s in if contains s b'.' then c ∷ rest else if c == b'.' then [] else c ∷ s
