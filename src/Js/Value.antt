-- ===== src/Js/Value.antt =====
-- JSON values as JavaScript sees them: reading a property and turning a value into text.
use interchain_event.Common.{ℕ, ◌+◌, Bool, true, false, Option, none, some, [], ◌++◌, if◌then◌else◌}
use interchain_event.Js.Text.{Text, text, text_eq}
use interchain_event.Js.Number.{to_text}

-- A number is carried by its own text, as `String` prints it; `builtin` is a function that an
-- object inherits, by its text.
mutual
  pub data Value : Type 0 where
    null : Value
    bool : Bool → Value
    num : Text → Value
    str : Text → Value
    builtin : Text → Value
    arr : Items → Value
    obj : Fields → Value

  pub data Items : Type 0 where
    nil : Items
    cons : Value → Items → Items

  pub data Fields : Type 0 where
    end : Fields
    field : Text → Value → Fields → Fields

unfoldable pub count_items : Items → ℕ
count_items nil = 0
count_items (cons v vs) = count_items vs + 1

-- An index is written without leading zeroes; `i` is the index of the first item.
unfoldable pub item_at : ℕ → Text → Items → Option Value
item_at i name nil = none
item_at i name (cons v vs) = if text_eq name (to_text i) then some v else item_at (i + 1) name vs

unfoldable pub field_at : Text → Fields → Option Value
field_at name end = none
field_at name (field k v fs) = if text_eq k name then some v else field_at name fs

-- An own property of an object or an array.
unfoldable pub own_property : Value → Text → Option Value
own_property (arr vs) name =
    if text_eq name (text "length")
    then some (num (to_text (count_items vs)))
    else item_at 0 name vs
own_property (obj fs) name = field_at name fs
own_property v name = none

-- `v && typeof v === "object"`
unfoldable pub is_object : Value → Bool
is_object (arr vs) = true
is_object (obj fs) = true
is_object v = false

-- An item's text inside an array's: nothing for `null`.
unfoldable pub item_text : Value → Option Text → Option Text
item_text null shown = some []
item_text v shown = shown

unfoldable pub with_comma : Option Text → Option Text → Option Text
unfolding text
with_comma none rest = none
with_comma (some s) none = none
with_comma (some s) (some rest) = some (s ++ (text "," ++ rest))

-- `String(v)`: the items of an array are joined by commas. `none` is the TypeError of an object whose
-- own property `toString`, which is no function, hides the inherited one.
unfoldable mutual
  unfolding text item_text with_comma

  pub to_string : Value → Option Text
  to_string null = some (text "null")
  to_string (bool true) = some (text "true")
  to_string (bool false) = some (text "false")
  to_string (num s) = some s
  to_string (str s) = some s
  to_string (builtin s) = some s
  to_string (arr vs) = join_items vs
  to_string (obj fs) = elim (field_at (text "toString") fs) [
    | none ↦ some (text "[object Object]")
    | some hidden ↦ none
  ]

  pub join_items : Items → Option Text
  join_items nil = some []
  join_items (cons v nil) = item_text v (to_string v)
  join_items (cons v (cons w vs)) = with_comma (item_text v (to_string v)) (join_items (cons w vs))
