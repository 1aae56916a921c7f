-- ===== src/Subscribe/Modal.antt =====
-- How the form of frontend/app/components/SubscribeModal.vue begins, and the message that it previews.
use interchain_event.Common.{
  ◌≡◌, refl, true, Option, none, some, List, [], ◌∷◌, ◌++◌, arith, inl, inr, if◌then◌else◌,
}
use interchain_event.Js.Text.{Text, text}
use interchain_event.Js.Value.{Value, null, num, str, arr, obj, nil, cons}
use interchain_event.Watcher.Fetch.{is_empty}
use interchain_event.Watcher.Machine.{Whole, whole_text}
use interchain_event.Explorer.Node.{StateNode, info}
use interchain_event.Explorer.Json.{literal}
use interchain_event.Subscribe.Form.{
  FormCondition, when_exists, when_equals, when_json_path, when_greater, when_less, Form,
  SubscribeMsg, build_condition, text_or, expiry, truthy_key, Submission, handle_submit,
}
use interchain_event.Subscribe.Keplr.{Wallet}
use interchain_event.Subscribe.Guards.{handle_submit-SentOnce}

-- `a ?? b` of texts.
abbrev pub text_else : Option Text → Option Text → Option Text
text_else none b = b
text_else (some a) b = some a

abbrev pub text_of : Option Text → Text
text_of none = []
text_of (some t) = t

unfoldable pub current_value : StateNode → Option Text → Option Text
current_value n pre_value = text_else pre_value (info n).value

unfoldable pub store_name_of : StateNode → Text
store_name_of n = elim (info n).store_name [ none ↦ (info n).module_name | some name ↦ name ]

-- The path that is shown, with the searched key at its end.
unfoldable pub display_path : StateNode → Option Text → List Text
display_path n none = (info n).path
display_path n (some key) = if is_empty key then (info n).path else (info n).path ++ (key ∷ [])

-- The form as it is opened on a node, with the row's condition and value.
unfoldable pub initial_form : StateNode → Option Text → Option Text → Form
unfolding current_value store_name_of
initial_form n pre_condition pre_value = record {
  store_name = store_name_of n;
  store_key = (info n).store_key;
  current_value = current_value n pre_value;
  condition = text_of (text_else pre_condition (some (text "JsonPathEquals")));
  threshold = [];
  encoding = text "Numeric";
  expected_value = text_of (current_value n pre_value);
  json_path = [];
  json_expected = [];
  callback_contract = text "cosmos108u0auz26aqgulr5exh4h2gadqar7qedcjj9yx7da5ramn0hlnmqj5plp2";
  callback_msg = text "{\"custom_action\":{}}";
  client_id = text "07-tendermint-1119";
  expires_after = [];
}

-- A condition as `JSON.stringify` gets it; one that is `undefined` is left out.
unfoldable pub condition_value : FormCondition → Value
condition_value when_exists = str (text "exists")
condition_value (when_equals expected) = obj (
    literal
      ((text "equals", some (obj (literal ((text "expected", some (str expected)) ∷ [])))) ∷ []))
condition_value (when_json_path path expected) = obj (
    literal (
      (
        text "json_path_equals",
        some (
            obj (
              literal
                ((text "path", some (str path)) ∷ (text "expected", some (str expected)) ∷ []))),
      )
      ∷ []))
condition_value (when_greater threshold encoding) = obj (
    literal (
      (
        text "greater_than",
        some (
            obj (
              literal (
                (text "threshold", some (str threshold))
                ∷ (text "encoding", some (str encoding))
                ∷ []))),
      )
      ∷ []))
condition_value (when_less threshold encoding) = obj (
    literal (
      (
        text "less_than",
        some (
            obj (
              literal (
                (text "threshold", some (str threshold))
                ∷ (text "encoding", some (str encoding))
                ∷ []))),
      )
      ∷ []))

abbrev pub optional_condition : Option FormCondition → Option Value
optional_condition none = none
optional_condition (some c) = some (condition_value c)

-- A field of a text that is set only where it is not empty.
abbrev pub when_set : Text → Value → Option Value
when_set t v = if is_empty t then none else some v

-- A number, with `null` for NaN.
abbrev pub whole_value : Whole → Value
whole_value none = null
whole_value (some n) = num (whole_text (some n))

-- Set only where the form has a number.
abbrev pub expiry_value : Option Whole → Option Value
expiry_value none = none
expiry_value (some w) = some (whole_value w)

-- What `jsonPreview` prints.
unfoldable pub preview_message : Form → Value
unfolding condition_value
preview_message form = obj (
    literal (
      (
        text "subscribe",
        some (
            obj (
              literal (
                (text "client_id", some (str (text_or (text "<client_id>") form.client_id)))
                ∷ (text "key_path", some (arr (cons (str form.store_name) nil)))
                ∷ (text "condition", optional_condition (build_condition form))
                ∷ (
                  text "callback_contract",
                  some (str (text_or (text "<callback_contract>") form.callback_contract)),
                )
                ∷ (text "callback_msg", some (str (text_or (text "{}") form.callback_msg)))
                ∷ (
                  text "_store_key_hex",
                  when_set (truthy_key form.store_key) (str (truthy_key form.store_key)),
                )
                ∷ (text "expires_after_blocks", expiry_value (expiry form.expires_after))
                ∷ []))),
      )
      ∷ []))

-- A form that is opened on a node without a store key sends nothing, as on a folder for a key that was
-- found in it.
pub initial_form-unsent :
    (wallet : Wallet SubscribeMsg) (n : StateNode) (condition value : Option Text) (s : Submission)
    → (info n).store_key ≡ none
    → (handle_submit wallet (initial_form n condition value) s).sent ≡ s.sent
unfolding initial_form
initial_form-unsent wallet n condition value s unkeyed =
    elim (handle_submit-SentOnce wallet (initial_form n condition value) s) [
      | inl nothing ↦ nothing
      | inr (msg, sent, linked, ready) ↦
          let keyless : is_empty (truthy_key (info n).store_key) ≡ true = rw unkeyed refl in
          ground (arith, keyless, ready.watched)
    ]
