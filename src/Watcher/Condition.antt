-- ===== src/Watcher/Condition.antt =====
-- `checkCondition`: whether a value read from the remote chain meets a subscription's condition.
pub mod Laws
use interchain_event.Common.{
  Bool, true, false, not, Option, none, some, List, [], ◌∷◌, ◌==◌, filter, if◌then◌else◌,
}
use interchain_event.Js.Text.{Text, text, text_eq, split}
use interchain_event.Js.Utf8.{text_decode}
use interchain_event.Js.Base64.{atob}
use interchain_event.Js.Value.{Value, own_property, is_object, to_string}
use interchain_event.Codec.Hex.{Bytes}
use interchain_event.Watcher.Types.{
  Condition, exists, json_path_equals, equals, greater_than, less_than, other_condition,
}

-- What `checkCondition` uses of the JavaScript engine and is not written out here: floating-point
-- numbers, `JSON.parse` (`none` is the SyntaxError) and the properties that an object inherits.
pub record Engine : Type 1 where
  pub Float : Type 0
  pub parse_float : Text → Float
  pub float_lt : Float → Float → Bool
  pub parse_json : Text → Option Value
  pub inherited : Value → Text → Option Value

-- `.replace(/"/g, "")`
unfoldable pub without_quotes : Text → Text
without_quotes s = filter (λ c. not (c == b'"')) s

module _ (engine : Engine) where
  open engine use {Float, parse_float, float_lt, parse_json, inherited}

  -- `segment in current` and `current[segment]`.
  unfoldable pub property : Value → Text → Option Value
  property v name = elim (own_property v name) [ none ↦ inherited v name | some found ↦ some found ]

  -- The loop over the segments of the path, `none` where it returns false.
  unfoldable pub walk : List Text → Value → Option Value
  walk [] current = some current
  walk (segment ∷ segments) current =
      if is_object current
      then elim (property current segment) [ none ↦ none | some next ↦ walk segments next ]
      else none

  unfoldable pub check_json_path : Text → Text → Text → Bool
  check_json_path path expected value_str = elim (parse_json value_str) [
    | none ↦ false
    | some json ↦ elim (walk (split path b'.') json) [
      | none ↦ false
      | some current ↦ elim (to_string current) [ none ↦ false | some s ↦ text_eq s expected ]
    ]
  ]

  unfoldable pub check_equals : Text → Text → Bool
  check_equals expected value_str = elim (atob expected) [
    | none ↦ text_eq value_str expected
    | some expected_str ↦ text_eq value_str expected_str
  ]

  -- `parseFloat` of the value and of the decoded threshold; a threshold that is no base64 is not met.
  unfoldable pub check_numbers : (Float → Float → Bool) → Text → Text → Bool
  check_numbers passes threshold value_str = elim (atob threshold) [
    | none ↦ false
    | some limit ↦
        passes (parse_float (without_quotes value_str)) (parse_float (without_quotes limit))
  ]

  unfoldable pub check_condition : Condition → Bytes → Bool
  check_condition exists value = true
  check_condition (json_path_equals path expected) value =
      check_json_path path expected (text_decode value)
  check_condition (equals expected) value = check_equals expected (text_decode value)
  check_condition (greater_than threshold) value =
      check_numbers (λ actual limit. float_lt limit actual) threshold (text_decode value)
  check_condition (less_than threshold) value =
      check_numbers (λ actual limit. float_lt actual limit) threshold (text_decode value)
  check_condition other_condition value = false
