-- ===== src/Subscribe/Form.antt =====
-- The script of frontend/app/components/SubscribeModal.vue.
use interchain_event.Common.{
  ℕ, ◌+◌, Bool, false, ◌&&◌, ◌||◌, Option, none, some, List, [], ◌∷◌, ◌++◌, ◌==◌, leb, map,
  if◌then◌else◌,
}
use interchain_event.Js.Text.{Text, text, text_eq, split}
use interchain_event.Js.Number.{parse_int, to_uint8}
use interchain_event.Js.Base64.Encode.{btoa, encode_base64}
use interchain_event.Js.Value.{to_string}
use interchain_event.Codec.Hex.{Bytes}
use interchain_event.Watcher.Condition.{Engine, walk}
use interchain_event.Watcher.Fetch.{is_empty, bad_base64}
use interchain_event.Watcher.Machine.{Outcome, ok, threw, Whole}
use interchain_event.Subscribe.Keplr.{
  Keplr, Wallet, Receipt, message_or, connect, execute_subscribe,
}

-- What `buildCondition` returns.
pub data FormCondition : Type 0 where
  when_exists : FormCondition
  when_equals : Text → FormCondition
  when_json_path : Text → Text → FormCondition
  when_greater : Text → Text → FormCondition
  when_less : Text → Text → FormCondition

-- The `subscribe` message; a condition that is none of the five is `undefined`.
pub record SubscribeMsg : Type 0 where
  pub client_id : Text
  pub key_path : List Text
  pub watch_key : Text
  pub condition : Option FormCondition
  pub callback_contract : Text
  pub callback_msg : Text
  pub expires_after_blocks : Option Whole

-- The fields of the form and the properties of its node that it reads.
pub record Form : Type 0 where
  pub store_name : Text
  pub store_key : Option Text
  pub current_value : Option Text
  pub condition : Text
  pub threshold : Text
  pub encoding : Text
  pub expected_value : Text
  pub json_path : Text
  pub json_expected : Text
  pub callback_contract : Text
  pub callback_msg : Text
  pub client_id : Text
  pub expires_after : Text

-- The wallet's state, the form's refs, and the messages sent, last first.
pub record Submission : Type 0 where
  pub keplr : Keplr
  pub submitting : Bool
  pub submit_error : Option Text
  pub submit_result : Option Receipt
  pub sent : List SubscribeMsg

-- `toLowerCase` of ASCII letters; the encodings on offer have no others.
unfoldable pub to_lower_case : Text → Text
to_lower_case s = map (λ c. if leb b'A' c && leb c b'Z' then c + 32 else c) s

unfoldable pub build_condition : Form → Option FormCondition
unfolding to_lower_case
build_condition form =
    if text_eq form.condition (text "Exists")
    then some when_exists
    else if text_eq form.condition (text "Equals")
    then some (when_equals form.expected_value)
    else if text_eq form.condition (text "JsonPathEquals")
    then some (when_json_path form.json_path form.json_expected)
    else if text_eq form.condition (text "GreaterThan")
    then some (when_greater form.threshold (to_lower_case form.encoding))
    else if text_eq form.condition (text "LessThan")
    then some (when_less form.threshold (to_lower_case form.encoding))
    else none

-- A character that `.` does not match.
abbrev pub is_line_end : ℕ → Bool
is_line_end c = c == 10 || c == 13 || c == 0x2028 || c == 0x2029

-- `(s.match(/.{2}/g) ?? []).map(b => parseInt(b, 16))` in a `Uint8Array`.
unfoldable pub pair_bytes : Text → Bytes
pair_bytes [] = []
pair_bytes (a ∷ []) = []
pair_bytes (a ∷ b ∷ s) =
    let rest = pair_bytes s in
    let shifted = pair_bytes (b ∷ s) in
    if is_line_end a || is_line_end b then shifted else to_uint8 (parse_int 16 (a ∷ b ∷ [])) ∷ rest

-- `btoa(String.fromCharCode(...bytes))`: every unit is a byte.
unfoldable pub watch_key_base64 : Text → Text
unfolding pair_bytes
watch_key_base64 store_key = encode_base64 (pair_bytes store_key)

-- `s || other`
abbrev pub text_or : Text → Text → Text
text_or other s = if is_empty s then other else s

-- Empty, or the text of 0: a ref that is falsy.
abbrev pub is_no_number : Text → Bool
is_no_number s = is_empty s || text_eq s (text "0")

-- The field is one for numbers, which `v-model` makes of what is typed: `s` is empty or the text that
-- `String` makes of the number, and that is what `parseInt` reads.
unfoldable pub expiry : Text → Option Whole
expiry s = if is_no_number s then none else some (parse_int 10 s)

-- The message that `handleSubmit` makes; `btoa` of the callback message may throw.
unfoldable pub subscribe_msg : Form → Text → Outcome SubscribeMsg
unfolding expiry
subscribe_msg form store_key = elim (btoa (text_or (text "{}") form.callback_msg)) [
  | none ↦ threw bad_base64
  | some callback_msg ↦ ok (record {
    client_id = form.client_id;
    key_path = form.store_name ∷ [];
    watch_key = watch_key_base64 store_key;
    condition = build_condition form;
    callback_contract = form.callback_contract;
    callback_msg = callback_msg;
    expires_after_blocks = expiry form.expires_after;
  })
]

abbrev pub with_error : Text → Submission → Submission
with_error message s = record s { submit_error = some message }

abbrev pub truthy_key : Option Text → Text
truthy_key none = []
truthy_key (some s) = s

module _ (wallet : Wallet SubscribeMsg) (form : Form) where
  -- The `try`, `catch` and `finally` after the checks.
  unfoldable pub finish_submit : Submission → Outcome Receipt × List SubscribeMsg → Submission
  finish_submit s (ok receipt, sent) = record s {
    submitting = false;
    submit_result = some receipt;
    sent = sent ++ s.sent;
  }
  finish_submit s (threw e, sent) = record s {
    submitting = false;
    submit_error = some (message_or (text "Transaction failed") e);
    sent = sent ++ s.sent;
  }

  unfoldable pub send_subscription : Submission → Text → Submission
  unfolding finish_submit
  send_subscription s store_key = elim (subscribe_msg form store_key) [
    | threw e ↦ finish_submit s (threw e, [])
    | ok msg ↦ finish_submit s (execute_subscribe wallet s.keplr msg)
  ]

  -- The checks, in their order.
  unfoldable pub submit_ready : Submission → Submission
  submit_ready s =
      if is_empty form.client_id
      then with_error (text "IBC Client ID is required") s
      else if is_empty (truthy_key form.store_key)
      then with_error (text "Watch key not available — select a specific state entry") s
      else if is_empty form.callback_contract
      then with_error (text "Callback contract is required") s
      else send_subscription s (truthy_key form.store_key)

  unfoldable pub handle_submit : Submission → Submission
  handle_submit s =
      let cleared = record s { submit_error = none } in
      if cleared.keplr.connected
      then submit_ready cleared
      else (let asked = record cleared { keplr = connect wallet cleared.keplr } in
          if asked.keplr.connected then submit_ready asked else asked)

module _ (engine : Engine) where
  -- `jsonPathPreview`, `none` for `null`.
  unfoldable pub json_path_preview : Form → Option Text
  json_path_preview form = elim form.current_value [
    | none ↦ none
    | some value ↦
        if is_empty form.json_path || is_empty value then none else elim (engine.parse_json value) [
          | none ↦ none
          | some json ↦ elim (walk engine (split form.json_path b'.') json) [
            | none ↦ none
            | some current ↦ to_string current
          ]
        ]
  ]
