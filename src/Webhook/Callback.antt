-- ===== src/Webhook/Callback.antt =====
-- internal/webhook/types.go: a captured callback, the paths into its body, and the outcome that a
-- test scripts for a hook.
pub mod Paths
use smoke_tester.Prelude.{
  ℕ, ◌+◌, ◌-◌, ◌*◌, ◌%◌, ◌^◌, Bool, true, false, ◌&&◌, ◌||◌, Option, none, some, List, [], ◌∷◌,
  ◌++◌, ltb, leb, ◌==◌, if◌then◌else◌,
}
use smoke_tester.Prelude.Bytes.{Bytes}
use smoke_tester.Prelude.Dict.{Dict}
use smoke_tester.Prelude.Text.{Text, is_empty, codes}
use smoke_tester.Webhook.Json.{
  Json, null, array, object, Fields, Items, is_null, field_at, item_at, items_length, as_text,
  as_object,
}

pub data Transport : Type 0 where
  http ws : Transport

-- Callback, without the time of its arrival. `json` is `none` for the nil map.
pub record Callback : Type 0 where
  pub hook : Text
  pub transport : Transport
  pub method : Text
  pub headers : Dict Text
  pub body : Bytes
  pub json : Option Fields
  pub test_id : Text

-- splitPath, with the segment read so far.
unfoldable pub split_path_from : Text → Text → List Text
split_path_from cur [] = if is_empty cur then [] else cur ∷ []
split_path_from cur (ch ∷ p) = elim (ch == b'.') [
  | true ↦ cur ∷ split_path_from [] p
  | false ↦ split_path_from (cur ++ ch ∷ []) p
]

unfoldable pub split_path : Text → List Text
unfolding split_path_from
split_path p = split_path_from [] p

-- An `int` is a number below 2 ^ 64 in two's complement.
abbrev pub is_negative : ℕ → Bool
is_negative n = leb (2 ^ 63) n

abbrev pub minus_one : ℕ
minus_one = 2 ^ 64 - 1

abbrev pub add_digit : ℕ → ℕ → ℕ
add_digit idx ch = ((if is_negative idx then 0 else idx) * 10 + (ch - b'0')) % 2 ^ 64

-- The loop over a segment that indexes an array; `first` says that i is 0, and `none` is the return
-- of nil.
unfoldable pub index_from : Bool → ℕ → Text → Option ℕ
index_from first idx [] = some idx
index_from first idx (ch ∷ seg) = elim (first && ch == b'-') [
  | true ↦ index_from false 0 seg
  | false ↦ elim (ltb ch b'0' || ltb b'9' ch) [
    | true ↦ none
    | false ↦ index_from false (add_digit idx ch) seg
  ]
]

abbrev pub at_index : Items → Option ℕ → Json
at_index xs none = null
at_index xs (some idx) =
    if is_negative idx || leb (items_length xs) idx then null else item_at idx xs

-- The `switch` on the value that a segment is applied to.
unfoldable pub select_segment : Text → Json → Json
unfolding index_from field_at item_at items_length
select_segment seg (object fs) = field_at seg fs
select_segment seg (array xs) = at_index xs (index_from true minus_one seg)
select_segment seg _ = null

unfoldable pub descend : List Text → Json → Json
unfolding select_segment
descend [] cur = cur
descend (seg ∷ segs) cur = elim (is_null (select_segment seg cur)) [
  | true ↦ null
  | false ↦ descend segs (select_segment seg cur)
]

unfoldable pub nested_in : Option Fields → Text → Json
nested_in none path = null
nested_in (some fs) path = if is_empty path then null else descend (split_path path) (object fs)

unfoldable pub nested_any : Callback → Text → Json
unfolding nested_in descend split_path
nested_any cb path = nested_in cb.json path

text_or_empty : Option Text → Text
text_or_empty none = []
text_or_empty (some s) = s

unfoldable pub nested_string : Callback → Text → Text
unfolding nested_any text_or_empty
nested_string cb path = text_or_empty (as_text (nested_any cb path))

abbrev top_field : Text → Option Fields → Json
top_field k none = null
top_field k (some fs) = field_at k fs

-- Callback.String.
unfoldable pub string_field : Callback → Text → Text
unfolding text_or_empty
string_field cb k = text_or_empty (as_text (top_field k cb.json))

unfoldable pub customer_data : Callback → Option Fields
customer_data cb = as_object (top_field (codes "customerData") cb.json)

-- HookOutcome: `verbs` is `none` for the nil slice.
pub record HookOutcome : Type 0 where
  pub status : ℕ
  pub verbs : Option (List Json)
  pub body : Bytes
  pub body_func : Option (Callback → Bytes)

unfoldable pub http_status_of : HookOutcome → ℕ
http_status_of o = if o.status == 0 then 200 else o.status
