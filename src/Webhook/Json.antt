-- ===== src/Webhook/Json.antt =====
-- The values that encoding/json decodes into `any`. A map is the list of its entries in the order
-- in which it is walked, and `null` is Go's nil, which a missing key gives too.
use smoke_tester.Prelude.{ℕ, zero, suc, Bool, true, false, Option, none, some, if◌then◌else◌}
use smoke_tester.Prelude.Text.{Text, text_eq, is_empty}

mutual
  pub data Json : Type 0 where
    null : Json
    truth : Bool → Json
    number : Text → Json
    text : Text → Json
    array : Items → Json
    object : Fields → Json

  pub data Items : Type 0 where
    no_items : Items
    item : Json → Items → Items

  pub data Fields : Type 0 where
    no_fields : Fields
    field : Text → Json → Fields → Fields

abbrev pub is_null : Json → Bool
is_null null = true
is_null _ = false

-- m[k].
unfoldable pub field_at : Text → Fields → Json
unfolding text_eq
field_at k no_fields = null
field_at k (field j v fs) = if text_eq j k then v else field_at k fs

unfoldable pub item_at : ℕ → Items → Json
item_at n no_items = null
item_at zero (item v xs) = v
item_at (suc n) (item v xs) = item_at n xs

unfoldable pub items_length : Items → ℕ
items_length no_items = 0
items_length (item v xs) = suc (items_length xs)

-- v.(string) and v.(map[string]any).
abbrev pub as_text : Json → Option Text
as_text (text s) = some s
as_text _ = none

abbrev pub as_object : Json → Option Fields
as_object (object fs) = some fs
as_object _ = none

abbrev pub some_text : Text → Option Text
some_text s = if is_empty s then none else some s

-- v.(string), if it is not empty.
abbrev pub nonempty : Json → Option Text
nonempty (text s) = some_text s
nonempty _ = none
