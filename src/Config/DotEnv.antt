-- ===== src/Config/DotEnv.antt =====
-- What the .env file can change.
use smoke_tester.Prelude.{
  ℕ, ◌≡◌, inl, inr, refl, sym, ap, ◌∙◌, Bool, true, false, not, ◌||◌, Option, none, some, List, [],
  ◌∷◌, ◌++◌, arith, Bool-cases, All, All-append, ◌==◌,
}
use smoke_tester.Config.{
  set_env, set_if_absent, assign, parse_line, load_dot_env, is_quote, trimmed_pair,
}
use smoke_tester.Prelude.Dict.{Dict, lookup, lookup-insert}
use smoke_tester.Prelude.Trim.{trim-none, All-map}
use smoke_tester.Prelude.Text.{
  after_char, Text, trim, trim_space, is_space, cut, has_prefix, contains, text_eq, text_eq_iff,
  text_eq_refl,
}

set_env-ne :
    (k v x : Text) (env : Dict Text)
    → text_eq k x ≡ false
    → lookup x (set_env k v env) ≡ lookup x env
unfolding set_env
set_env-ne k v x env apart = ground (arith, apart, lookup-insert k x v env)

none-ne-some : (v : Text) → none ≡ some v → ⊥
none-ne-some v p = cc

assign-keeps :
    (l : Option (Text × Text)) (env : Dict Text) (x v : Text)
    → lookup x env ≡ some v
    → lookup x (assign l env) ≡ some v
unfolding assign set_if_absent
assign-keeps none env x v h = h
assign-keeps (some (k, w)) env x v h = go (lookup k env) refl
  where
    go : (o : Option Text) → lookup k env ≡ o → lookup x (set_if_absent o k w env) ≡ some v
    go (some y) e = h
    go none e = elim (Bool-cases (text_eq k x)) [
      | inl same ↦
          absurd (none-ne-some v (sym e ∙ (ap (λ y. lookup y env) ((text_eq_iff k x).0 same) ∙ h)))
      | inr apart ↦ set_env-ne k w x env apart ∙ h
    ]

-- A variable that the environment has keeps its value, whatever the file holds.
pub load_dot_env-keeps :
    (lines : List Text) (env : Dict Text) (x v : Text)
    → lookup x env ≡ some v
    → lookup x (load_dot_env lines env) ≡ some v
unfolding load_dot_env
load_dot_env-keeps [] env x v h = h
load_dot_env-keeps (line ∷ lines) env x v h =
    load_dot_env-keeps lines (assign (parse_line line) env) x v
      (assign-keeps (parse_line line) env x v h)

-- Which variable a line is about.
abbrev pub names : Text → Option (Text × Text) → Bool
names x none = false
names x (some (k, v)) = text_eq k x

assign-absent :
    (l : Option (Text × Text)) (env : Dict Text) (x : Text)
    → names x l ≡ false
    → lookup x env ≡ none
    → lookup x (assign l env) ≡ none
unfolding assign set_if_absent
assign-absent none env x other h = h
assign-absent (some (k, w)) env x other h = go (lookup k env)
  where
    go : (o : Option Text) → lookup x (set_if_absent o k w env) ≡ none
    go (some y) = h
    go none = set_env-ne k w x env other ∙ h

-- A character of a name, and of a value that stands without quotes.
abbrev pub is_plain : ℕ → Bool
is_plain c = not (is_space c || is_quote c || c == 0)

abbrev pub is_name_char : ℕ → Bool
is_name_char c = not (is_space c || c == b'=' || c == b'#' || c == 0)

abbrev pub IsPlain : Text → Type 0
IsPlain v = All (λ c. is_plain c ≡ true) v

abbrev pub IsName : Text → Type 0
IsName k = All (λ c. is_name_char c ≡ true) k

cut-append : (k v : Text) → IsName k → cut b'=' (k ++ (b'=' ∷ v)) ≡ some (k, v)
unfolding cut after_char
cut-append [] v h = refl
cut-append (c ∷ k) v h =
    let other : (c == b'=') ≡ false = ground (arith, h.0) in
    rw (other, cut) (ap (after_char c) (cut-append k v h.1))

equals_sign : is_space b'=' ≡ false
unfolding is_space
equals_sign = refl

name-not_space : (c : ℕ) → is_name_char c ≡ true → is_space c ≡ false
name-not_space c h = ground arith

plain-not_space : (c : ℕ) → is_plain c ≡ true → is_space c ≡ false
plain-not_space c h = ground arith

plain-not_quote : (c : ℕ) → is_plain c ≡ true → is_quote c ≡ false
plain-not_quote c h = ground arith

contains-none : (x : ℕ) (s : Text) → All (λ c. (c == x) ≡ false) s → contains s x ≡ false
unfolding contains
contains-none x [] h = refl
contains-none x (c ∷ s) h = rw (h.0, contains) (contains-none x s h.1)

parse_line-assignment :
    (c : ℕ) (k v : Text)
    → IsName (c ∷ k)
    → IsPlain v
    → parse_line ((c ∷ k) ++ (b'=' ∷ v)) ≡ some (c ∷ k, v)
unfolding parse_line trim_space has_prefix
parse_line-assignment c k v n p =
    let line : Text = (c ∷ k) ++ (b'=' ∷ v) in
    let no_space : All (λ x. is_space x ≡ false) line =
      All-append (λ x. is_space x ≡ false) (c ∷ k) (b'=' ∷ v)
        (All-map (λ x. is_name_char x ≡ true) (λ x. is_space x ≡ false) (c ∷ k) name-not_space n)
        (
          equals_sign,
          All-map (λ x. is_plain x ≡ true) (λ x. is_space x ≡ false) v plain-not_space p,
        ) in
    let hash : (c == b'#') ≡ false = ground (arith, n.0) in
    rw (trim-none is_space line no_space) (
      rw hash (
        ap trimmed_pair (cut-append (c ∷ k) v n)
        ∙ (ap (λ t. some (t, trim is_quote (trim is_space v)))
              (trim-none is_space (c ∷ k) (
                All-map (λ x. is_name_char x ≡ true) (λ x. is_space x ≡ false) (c ∷ k)
                  name-not_space n))
            ∙ (ap (λ t. some (c ∷ k, trim is_quote t))
                  (trim-none is_space v (
                    All-map (λ x. is_plain x ≡ true) (λ x. is_space x ≡ false) v plain-not_space p))
                ∙ ap (λ t. some (c ∷ k, t))
                    (trim-none is_quote v (
                      All-map (λ x. is_plain x ≡ true) (λ x. is_quote x ≡ false) v plain-not_quote
                        p))))))

set_env-sets :
    (c : ℕ) (k v : Text) (env : Dict Text)
    → IsName (c ∷ k)
    → IsPlain v
    → lookup (c ∷ k) (set_env (c ∷ k) v env) ≡ some v
unfolding set_env
set_env-sets c k v env n p =
    let no_equals : contains (c ∷ k) b'=' ≡ false = contains-none b'=' (c ∷ k) (
      All-map (λ x. is_name_char x ≡ true) (λ x. (x == b'=') ≡ false) (c ∷ k)
        (λ x h. ground (arith, h)) n) in
    let no_nul : contains (c ∷ k) 0 ≡ false = contains-none 0 (c ∷ k) (
      All-map (λ x. is_name_char x ≡ true) (λ x. (x == 0) ≡ false) (c ∷ k)
        (λ x h. ground (arith, h)) n) in
    let no_nul' : contains v 0 ≡ false =
      contains-none 0 v
        (All-map (λ x. is_plain x ≡ true) (λ x. (x == 0) ≡ false) v (λ x h. ground (arith, h)) p) in
    rw (no_equals, no_nul, no_nul')
      (lookup-insert (c ∷ k) (c ∷ k) v env ∙ rw (text_eq_refl (c ∷ k)) refl)

-- The first line `NAME=value` of the file with a name that the environment lacks sets the variable
-- to that value, whatever lines stand before, as long as none of them is about the variable, and
-- whatever lines follow. The name is not empty and has no space, `=`, `#` or NUL, and the value no
-- space, quote or NUL.
load_dot_env-sets :
    (before : List Text) (c : ℕ) (k v : Text) (after : List Text) (env : Dict Text)
    → IsName (c ∷ k)
    → IsPlain v
    → All (λ l. names (c ∷ k) (parse_line l) ≡ false) before
    → lookup (c ∷ k) env ≡ none
    → lookup (c ∷ k) (load_dot_env (before ++ ((c ∷ k) ++ (b'=' ∷ v)) ∷ after) env) ≡ some v
unfolding load_dot_env assign set_if_absent
load_dot_env-sets [] c k v after env n p other h =
    let first : lookup (c ∷ k) (assign (parse_line ((c ∷ k) ++ (b'=' ∷ v))) env) ≡ some v =
      ap (λ l. lookup (c ∷ k) (assign l env)) (parse_line-assignment c k v n p)
      ∙ (ap (λ o. lookup (c ∷ k) (set_if_absent o (c ∷ k) v env)) h ∙ set_env-sets c k v env n p) in
    load_dot_env-keeps after (assign (parse_line ((c ∷ k) ++ (b'=' ∷ v))) env) (c ∷ k) v first
load_dot_env-sets (l ∷ before) c k v after env n p other h =
    load_dot_env-sets before c k v after (assign (parse_line l) env) n p other.1
      (assign-absent (parse_line l) env (c ∷ k) other.0 h)
