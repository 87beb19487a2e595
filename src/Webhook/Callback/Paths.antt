-- ===== src/Webhook/Callback/Paths.antt =====
-- A dotted path leads to the value that its segments name, one after the other.
use smoke_tester.Prelude.{
  ℕ, ◌+◌, ◌-◌, ◌*◌, ◌^◌, ◌≤◌, ◌<◌, ◌≡◌, ◌≢◌, inl, inr, refl, sym, ap, ◌∙◌, Bool, true, false, ◌&&◌,
  ◌||◌, some, List, [], ◌∷◌, ◌++◌, arith, ltb, ◌==◌, Bool-cases, map, All,
}
use mathlib.Core.List.{append_assoc, append-nil}
use smoke_tester.Prelude.Itoa.{itoa, parse_digits, atoi-itoa, atoi}
use smoke_tester.Prelude.Text.{Text, is_empty, is_digit}
use smoke_tester.Webhook.Callback.{
  Callback, split_path_from, split_path, minus_one, add_digit, index_from, select_segment, descend,
  nested_in, nested_any, at_index,
}
use smoke_tester.Webhook.Json.{
  Json, null, truth, number, text, array, object, Fields, Items, is_null, field_at, item_at,
  items_length,
}

-- A segment of a path: a key of an object, or a position in an array.
pub data Segment : Type 0 where
  key : Text → Segment
  index : ℕ → Segment

abbrev pub spelled : Segment → Text
spelled (key k) = k
spelled (index n) = itoa n

-- The segments with dots between them.
abbrev pub dotted : Text → List Text → Text
dotted s [] = s
dotted s (t ∷ ts) = s ++ (b'.' ∷ dotted t ts)

abbrev pub NoDot : Text → Type 0
NoDot s = All (λ c. (c == b'.') ≡ false) s

abbrev pub IsPiece : Text → Type 0
IsPiece s = (s ≢ []) × NoDot s

split_path_from-char :
    (cur : Text) (c : ℕ) (p : Text)
    → (c == b'.') ≡ false
    → split_path_from cur (c ∷ p) ≡ split_path_from (cur ++ c ∷ []) p
unfolding split_path_from
split_path_from-char cur c p h = rw (h, split_path_from) refl

split_path_from-append :
    (cur s rest : Text)
    → NoDot s
    → split_path_from cur (s ++ rest) ≡ split_path_from (cur ++ s) rest
split_path_from-append cur [] rest h = ap (λ x. split_path_from x rest) (sym (append-nil cur))
split_path_from-append cur (c ∷ s) rest h =
    split_path_from-char cur c (s ++ rest) h.0
    ∙ (split_path_from-append (cur ++ c ∷ []) s rest h.1
        ∙ ap (λ x. split_path_from x rest) (append_assoc cur (c ∷ []) s))

split_path_from-last : (s : Text) → s ≢ [] → split_path_from s [] ≡ s ∷ []
unfolding split_path_from
split_path_from-last [] h = absurd (h refl)
split_path_from-last (c ∷ s) h = refl

split_path-dotted :
    (s : Text) (ss : List Text) → IsPiece s → All IsPiece ss → split_path (dotted s ss) ≡ s ∷ ss
unfolding split_path split_path_from
split_path-dotted s [] h hs =
    ap (split_path_from []) (sym (append-nil s))
    ∙ (split_path_from-append [] s [] h.1 ∙ split_path_from-last s h.0)
split_path-dotted s (t ∷ ts) h hs =
    split_path_from-append [] s (b'.' ∷ dotted t ts) h.1
    ∙ ap (λ x. s ∷ x) (split_path-dotted t ts hs.0 hs.1)

is_empty-dotted : (s : Text) (ss : List Text) → s ≢ [] → is_empty (dotted s ss) ≡ false
is_empty-dotted [] ss h = absurd (h refl)
is_empty-dotted (c ∷ s) [] h = refl
is_empty-dotted (c ∷ s) (t ∷ ts) h = refl

-- A digit string whose value fits an int is read as that value.
parse_digits-le : (acc n : ℕ) (s : Text) → parse_digits acc s ≡ some n → acc ≤ n
unfolding parse_digits
parse_digits-le acc n [] h = ground arith
parse_digits-le acc n (c ∷ s) h = ground (arith, parse_digits-le (10 * acc + (c - b'0')) n s)

-- One digit, at a value that stays small.
index_from-digit :
    (first : Bool) (idx acc c : ℕ) (s : Text)
    → is_digit c ≡ true
    → add_digit idx c ≡ acc
    → index_from first idx (c ∷ s) ≡ index_from false acc s
unfolding index_from
index_from-digit first idx acc c s digit e =
    let no_sign : first && c == b'-' ≡ false = ground arith in
    let in_range : ltb c b'0' || ltb b'9' c ≡ false = ground arith in
    rw (no_sign, index_from) (rw (in_range, index_from) (ap (λ x. index_from false x s) e))

index_from-digits :
    (acc n : ℕ) (s : Text)
    → parse_digits acc s ≡ some n
    → n < 2 ^ 63
    → index_from false acc s ≡ some n
unfolding parse_digits index_from
index_from-digits acc n [] h small = h
index_from-digits acc n (c ∷ s) h small = elim (Bool-cases (is_digit c)) [
  | inl digit ↦
      let next : parse_digits (10 * acc + (c - b'0')) s ≡ some n = ground (arith, digit, h) in
      let le : 10 * acc + (c - b'0') ≤ n = parse_digits-le (10 * acc + (c - b'0')) n s next in
      index_from-digit false acc (10 * acc + (c - b'0')) c s digit (ground (arith, le, small))
      ∙ index_from-digits (10 * acc + (c - b'0')) n s next small
  | inr other ↦ absurd (ground (arith, other, h))
]

index_from-atoi :
    (n : ℕ) (s : Text) → atoi s ≡ some n → n < 2 ^ 63 → index_from true minus_one s ≡ some n
unfolding atoi parse_digits
index_from-atoi n [] h small = cc
index_from-atoi n (c ∷ s) h small = elim (Bool-cases (is_digit c)) [
  | inl digit ↦
      let next : parse_digits (10 * 0 + (c - b'0')) s ≡ some n = ground (arith, digit, h) in
      index_from-digit true minus_one (10 * 0 + (c - b'0')) c s digit (ground (arith, digit))
      ∙ index_from-digits (10 * 0 + (c - b'0')) n s next small
  | inr other ↦ absurd (ground (arith, other, h))
]

-- The value that segments lead to, from one value on.
pub data Leads : Json → List Segment → Json → Type 0 where
  here : {v : Json} → Leads v [] v
  at_key :
      {fs : Fields} {k : Text} {ss : List Segment} {v : Json}
      → Leads (field_at k fs) ss v
      → Leads (object fs) (key k ∷ ss) v
  at_item :
      {xs : Items} {n : ℕ} {ss : List Segment} {v : Json}
      → n < items_length xs
      → n < 2 ^ 63
      → Leads (item_at n xs) ss v
      → Leads (array xs) (index n ∷ ss) v

Leads-null :
    {cur : Json} {ss : List Segment} {v : Json} → Leads cur ss v → is_null cur ≡ true → null ≡ v
Leads-null {cur = null} here e = refl
Leads-null {cur = truth b} l e = cc
Leads-null {cur = number n} l e = cc
Leads-null {cur = text s} l e = cc
Leads-null {cur = array xs} l e = cc
Leads-null {cur = object fs} l e = cc

-- One round of the walk, when the segment selects `next`.
descend-next :
    (seg : Text) (segs : List Text) (cur next v : Json)
    → select_segment seg cur ≡ next
    → descend segs next ≡ v
    → (is_null next ≡ true → null ≡ v)
    → descend (seg ∷ segs) cur ≡ v
unfolding descend
descend-next seg segs cur next v e rest gone =
    elim (Bool-cases (is_null (select_segment seg cur))) [
      | inl stop ↦ rw (stop, descend) (gone (ap is_null (sym e) ∙ stop))
      | inr go ↦ rw (go, descend) (ap (descend segs) e ∙ rest)
    ]

select_segment-index :
    (xs : Items) (n : ℕ)
    → n < items_length xs
    → n < 2 ^ 63
    → select_segment (itoa n) (array xs) ≡ item_at n xs
unfolding select_segment
select_segment-index xs n lt small =
    ap (at_index xs) (index_from-atoi n (itoa n) (atoi-itoa n) small) ∙ ground (arith, lt, small)

descend-Leads :
    {cur : Json} {ss : List Segment} {v : Json} → Leads cur ss v → descend (map spelled ss) cur ≡ v
unfolding descend select_segment
descend-Leads here = refl
descend-Leads {cur = object fs} {ss = key k ∷ ss} {v = v} (at_key l) =
    descend-next k (map spelled ss) (object fs) (field_at k fs) v refl (descend-Leads l)
      (Leads-null l)
descend-Leads {cur = array xs} {ss = index n ∷ ss} {v = v} (at_item lt small l) =
    descend-next (itoa n) (map spelled ss) (array xs) (item_at n xs) v
      (select_segment-index xs n lt small) (descend-Leads l) (Leads-null l)

-- A path whose segments, keys and decimal positions below 2 ^ 63, are not empty and hold no dot
-- leads to the value that these segments lead to in the decoded body.
pub nested_any-Leads :
    (cb : Callback) (fs : Fields) (s : Segment) (ss : List Segment) (v : Json)
    → cb.json ≡ some fs
    → IsPiece (spelled s)
    → All IsPiece (map spelled ss)
    → Leads (object fs) (s ∷ ss) v
    → nested_any cb (dotted (spelled s) (map spelled ss)) ≡ v
unfolding nested_any nested_in
nested_any-Leads cb fs s ss v e h hs l =
    ap (λ o. nested_in o (dotted (spelled s) (map spelled ss))) e
    ∙ rw (is_empty-dotted (spelled s) (map spelled ss) h.0) (
        ap (λ p. descend p (object fs)) (split_path-dotted (spelled s) (map spelled ss) h hs)
        ∙ descend-Leads l)
