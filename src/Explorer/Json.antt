-- ===== src/Explorer/Json.antt =====
-- How frontend/app/composables/useStateExplorer.ts reads REST answers: `none` is `undefined`, and
-- `threw` the TypeError of a property of nothing or of a `map` that is none.
use interchain_event.Common.{ℕ, ◌+◌, Option, none, some, List, [], ◌∷◌}
use interchain_event.Js.Text.{Text, text}
use interchain_event.Js.Number.{to_text}
use interchain_event.Js.Value.{
  Value, null, str, arr, obj, Items, nil, cons, Fields, end, field, own_property, to_string,
}
use interchain_event.Watcher.Machine.{Outcome, ok, threw}

infixl 5 ◌>>=◌
unfoldable pub ◌>>=◌ : {A B : Type 0} → Outcome A → (A → Outcome B) → Outcome B
ok a >>= f = f a
threw e >>= f = threw e

abbrev pub type_error : Text
type_error = text "TypeError"

-- `v.name`
unfoldable pub read_field : Text → Option Value → Outcome (Option Value)
read_field name none = threw type_error
read_field name (some null) = threw type_error
read_field name (some v) = ok (own_property v name)

-- `v?.name`
unfoldable pub read_optional : Text → Option Value → Option Value
read_optional name none = none
read_optional name (some null) = none
read_optional name (some v) = own_property v name

-- `a ?? b`
unfoldable pub or_else : Option Value → Option Value → Option Value
or_else none b = b
or_else (some null) b = b
or_else (some v) b = some v

abbrev pub item_list : Items → List Value
item_list nil = []
item_list (cons v vs) = v ∷ item_list vs

-- The items on which `map` runs.
unfoldable pub items_of : Option Value → Outcome (List Value)
items_of (some (arr vs)) = ok (item_list vs)
items_of _ = threw type_error

abbrev pub empty_array : Option Value
empty_array = some (arr nil)

abbrev pub empty_object : Option Value
empty_object = some (obj end)

abbrev pub indexed : ℕ → List Value → List (Text × Value)
indexed i [] = []
indexed i (v ∷ vs) = (to_text i, v) ∷ indexed (i + 1) vs

abbrev pub units_as_items : Text → List Value
units_as_items [] = []
units_as_items (c ∷ s) = str (c ∷ []) ∷ units_as_items s

abbrev pub field_list : Fields → List (Text × Value)
field_list end = []
field_list (field k v fs) = (k, v) ∷ field_list fs

-- `Object.entries`; on nothing it throws.
unfoldable pub object_entries : Option Value → Outcome (List (Text × Value))
object_entries none = threw type_error
object_entries (some null) = threw type_error
object_entries (some (obj fs)) = ok (field_list fs)
object_entries (some (arr vs)) = ok (indexed 0 (item_list vs))
object_entries (some (str s)) = ok (indexed 0 (units_as_items s))
object_entries (some _) = ok []

-- `String(v)` and `${v}`.
unfoldable pub shown : Option Value → Outcome Text
shown none = ok (text "undefined")
shown (some v) = elim (to_string v) [ none ↦ threw type_error | some s ↦ ok s ]

-- A field that the API documents as a text and that becomes a node's key or value as it is; what is
-- no text, which no endpoint sends there, is taken by its text.
unfoldable pub text_field : Option Value → Text
text_field none = text "undefined"
text_field (some v) = elim (to_string v) [ none ↦ text "[object Object]" | some s ↦ s ]

-- `v || null` for a text.
unfoldable pub some_text : Option Value → Option Text
some_text (some (str (c ∷ s))) = some (c ∷ s)
some_text _ = none

-- An object literal: a field that is `undefined` is left out by `JSON.stringify`.
abbrev pub literal : List (Text × Option Value) → Fields
literal [] = end
literal ((k, none) ∷ rest) = literal rest
literal ((k, some v) ∷ rest) = field k v (literal rest)

-- `map` with a function that may throw.
unfoldable pub map_items {ℓ} :
    {A : Type ℓ} {B : Type 0} → (A → Outcome B) → List A → Outcome (List B)
map_items f [] = ok []
map_items f (a ∷ as') = do b ← f a; bs ← map_items f as'; ok (b ∷ bs)
