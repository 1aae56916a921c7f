-- ===== src/Contract/Condition.antt =====
-- The check of a proven value in `execute_submit_proof` (contracts/interchain-events/src/contract.rs).
use interchain_event.Common.{Bool, true, false, Option, none, some, List, [], ◌∷◌}
use interchain_event.Js.Text.{Text, text, text_eq, split}
use interchain_event.Js.Value.{Value, null, bool, num, str, builtin, arr, obj, field_at}
use interchain_event.Codec.Hex.{Bytes}
use interchain_event.Contract.Types.{
  SubscriptionCondition, exists, equals, greater_than, less_than, json_path_equals, Result, ok, err,
  ◌>>=◌, value_mismatch, threshold_not_met, value_decode_error,
}
use interchain_event.Contract.Compare.{Ordering, less, equal, greater, compare_values}

-- What the contract calls of serde_json: `from_slice`, and the text of an array or an object.
pub record Serde : Type 0 where
  pub from_slice : Bytes → Option Value
  pub compact : Value → Text

abbrev pub require : Bool → Result (Unit {0}) → Result (Unit {0})
require true otherwise = ok tt
require false otherwise = otherwise

-- `Value::get` with a string: an entry of an object.
unfoldable pub get_entry : Value → Text → Option Value
get_entry (obj fs) segment = field_at segment fs
get_entry v segment = none

unfoldable pub walk_path : List Text → Value → Result Value
unfolding get_entry
walk_path [] current = ok current
walk_path (segment ∷ segments) current = elim (get_entry current segment) [
  | none ↦ err value_decode_error
  | some next ↦ walk_path segments next
]

unfoldable pub is_ordering : Ordering → Ordering → Bool
is_ordering less less = true
is_ordering equal equal = true
is_ordering greater greater = true
is_ordering o p = false

module _ (serde : Serde) where
  unfoldable pub plain_text : Value → Text
  plain_text null = text "null"
  plain_text (bool true) = text "true"
  plain_text (bool false) = text "false"
  plain_text (num n) = n
  plain_text (str s) = s
  plain_text (builtin s) = serde.compact (builtin s)
  plain_text (arr vs) = serde.compact (arr vs)
  plain_text (obj fs) = serde.compact (obj fs)

  unfoldable pub accept_condition : SubscriptionCondition → Bytes → Result (Unit {0})
  unfolding walk_path is_ordering plain_text
  accept_condition exists value = ok tt
  accept_condition (equals expected) value = require (text_eq value expected) (err value_mismatch)
  accept_condition (greater_than threshold encoding) value = do
    order ← compare_values value threshold encoding
    require (is_ordering order greater) (err threshold_not_met)
  accept_condition (less_than threshold encoding) value = do
    order ← compare_values value threshold encoding
    require (is_ordering order less) (err threshold_not_met)
  accept_condition (json_path_equals path expected) value = elim (serde.from_slice value) [
    | none ↦ err value_decode_error
    | some json ↦ do
      current ← walk_path (split path b'.') json
      require (text_eq (plain_text current) expected) (err value_mismatch)
  ]
