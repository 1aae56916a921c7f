-- ===== src/System/Agree.antt =====
-- `checkCondition` of the watcher against the contract's own check of a proven value.
use interchain_event.Common.{
  ◌≡◌, ◌↔◌, refl, Bool, true, false, some, Option-cases, inl, inr, List, [], ◌∷◌, arith,
}
use interchain_event.Js.Text.{Text, text_eq, split}
use interchain_event.Js.Utf8.{text_decode}
use interchain_event.Js.Utf8.Ascii.{IsAscii, text_decode-ascii}
use interchain_event.Js.Base64.{atob}
use interchain_event.Js.Value.{
  Value, null, bool, num, str, builtin, arr, obj, field_at, own_property, is_object, to_string,
}
use interchain_event.Codec.Hex.{Bytes}
use interchain_event.Watcher.Types.{Condition}
use interchain_event.Watcher.Condition.{
  Engine, property, walk, check_json_path, check_equals, check_condition,
}
use interchain_event.Contract.Types.{
  SubscriptionCondition, ContractError, value_mismatch, ok, err, ◌>>=◌,
}
use interchain_event.Contract.Condition.{
  Serde, require, get_entry, walk_path, plain_text, accept_condition,
}

abbrev pub IsScalar : Value → Type 0
IsScalar null = Unit
IsScalar (bool b) = Unit
IsScalar (num n) = Unit
IsScalar (str s) = Unit
IsScalar (builtin s) = ⊥
IsScalar (arr vs) = ⊥
IsScalar (obj fs) = ⊥

module _ (engine : Engine) (serde : Serde) where
  -- A condition of the contract as the watcher reads it, and a value on which the two can be compared:
  -- texts in ASCII, and JSON that both parsers read alike and whose path runs through objects to a scalar.
  pub data Comparable (value : Bytes) : SubscriptionCondition → Condition → Type 0 where
    both_exist : Comparable value SubscriptionCondition.exists Condition.exists
    both_equal :
        (expected : Bytes) (shown : Text)
        → atob shown ≡ some expected
        → IsAscii value
        → Comparable value (SubscriptionCondition.equals expected) (Condition.equals shown)
    both_follow :
        (path expected : Text) (json last : Value)
        → engine.parse_json (text_decode value) ≡ some json
        → serde.from_slice value ≡ some json
        → walk_path (split path b'.') json ≡ ok last
        → IsScalar last
        → Comparable value
            (SubscriptionCondition.json_path_equals path expected)
            (Condition.json_path_equals path expected)

  walk_path-walk :
      (segments : List Text) (v last : Value)
      → walk_path segments v ≡ ok last
      → walk engine segments v ≡ some last
  unfolding walk_path walk get_entry is_object property own_property
  walk_path-walk [] v last e = ground arith
  walk_path-walk (segment ∷ segments) (obj fs) last e = elim (Option-cases (field_at segment fs)) [
    | inl missing ↦ ground arith
    | inr (next, found) ↦ ground (arith, walk_path-walk segments next last)
  ]
  walk_path-walk (segment ∷ segments) v last e = ground arith

  plain_text-to_string : (v : Value) → IsScalar v → to_string v ≡ some (plain_text serde v)
  unfolding to_string plain_text
  plain_text-to_string null h = refl
  plain_text-to_string (bool true) h = refl
  plain_text-to_string (bool false) h = refl
  plain_text-to_string (num n) h = refl
  plain_text-to_string (str s) h = refl
  plain_text-to_string (builtin s) h = absurd h
  plain_text-to_string (arr vs) h = absurd h
  plain_text-to_string (obj fs) h = absurd h

  require_iff : (b : Bool) (x : ContractError) → (b ≡ true) ↔ (require b (err x) ≡ ok tt)
  require_iff true x = (λ h. refl, λ h. refl)
  require_iff false x = (λ h. ground arith, λ h. ground arith)

  -- For the condition that a key exists; for an expected value that the watcher has in base64, on
  -- an ASCII value; and for a JSON path on a value that both sides parse to the same JSON and in
  -- which the path leads through objects to a value that is neither an object nor an array:
  -- `checkCondition` of the watcher finds the condition met exactly if the contract accepts the
  -- value.
  pub check_condition-accept_condition :
      (value : Bytes) (c : SubscriptionCondition) (d : Condition)
      → Comparable value c d
      → (check_condition engine d value ≡ true) ↔ (accept_condition serde c value ≡ ok tt)
  unfolding check_condition accept_condition check_equals check_json_path ◌>>=◌
  check_condition-accept_condition value _ _ both_exist = (λ h. refl, λ h. refl)
  check_condition-accept_condition value _ _ (both_equal expected shown same ascii) =
      let e : check_equals engine shown (text_decode value) ≡ text_eq value expected =
        rw (check_equals, same, text_decode-ascii value ascii) refl in
      rw e (require_iff (text_eq value expected) value_mismatch)
  check_condition-accept_condition value _ _
        (both_follow path expected json last parsed read found scalar) =
      let e : check_json_path engine path expected (text_decode value)
          ≡ text_eq (plain_text serde last) expected =
        rw
          (
            check_json_path,
            parsed,
            walk_path-walk (split path b'.') json last found,
            plain_text-to_string last scalar,
          )
          refl in
      let f : accept_condition serde (SubscriptionCondition.json_path_equals path expected) value
          ≡ require (text_eq (plain_text serde last) expected) (err value_mismatch) =
        rw (accept_condition, read, found) refl in
      rw (e, f) (require_iff (text_eq (plain_text serde last) expected) value_mismatch)
