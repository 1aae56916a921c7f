-- ===== src/Tests/Subscribe.antt =====
-- The subscription form and a row of the tree at concrete inputs.
use interchain_event.Common.{ℕ, ◌≡◌, refl, arith, true, false, none, some, [], ◌∷◌, List}
use interchain_event.Js.Double.{to_double}
use interchain_event.Js.Text.{text, text_eq}
use interchain_event.Js.Base64.{atob}
use interchain_event.Js.Base64.Encode.{btoa, encode_base64}
use interchain_event.Js.Number.{to_uint8, parse_int}
use interchain_event.Watcher.Types.{equals}
use interchain_event.Watcher.Condition.{check_condition}
use interchain_event.Watcher.Machine.{ok}
use interchain_event.Watcher.Process.{process_subscription}
use interchain_event.Codec.Hex.{bytes_to_hex, byte_to_hex}
use interchain_event.Subscribe.Keplr.{Wallet}
use interchain_event.Subscribe.Form.{
  SubscribeMsg, Form, Submission, when_equals, subscribe_msg, build_condition, watch_key_base64,
  handle_submit,
}
use interchain_event.Subscribe.Guards.{SentOnce, handle_submit-SentOnce}
use interchain_event.Subscribe.WatchKey.{watching, form_watched}
use interchain_event.Subscribe.Equals.{equals_refuses_itself}
use interchain_event.Tests.Data.{test_engine, watched, working}

abbrev form : Form
form = record {
  store_name = text "wasm";
  store_key = some (text "01");
  current_value = some (text "true");
  condition = text "Equals";
  threshold = [];
  encoding = text "Numeric";
  expected_value = text "true";
  json_path = [];
  json_expected = [];
  callback_contract = text "cosmos1callback";
  callback_msg = text "{}";
  client_id = text "07-tendermint-1119";
  expires_after = [];
}

abbrev wallet : Wallet SubscribeMsg
wallet = record {
  installed = true;
  enable = ok tt;
  accounts = ok (text "cosmos1user" ∷ []);
  connect_with_signer = ok tt;
  execute = λ address msg. ok (record { transaction_hash = text "TX"; events = [] });
}

abbrev fresh : Submission
fresh = record {
  keplr = record { address = none; connected = false; error = none };
  submitting = false;
  submit_error = none;
  submit_result = none;
  sent = [];
}

handle_submit-SentOnce_example : SentOnce form fresh (handle_submit wallet form fresh)
handle_submit-SentOnce_example = handle_submit-SentOnce wallet form fresh

-- The message for the key of byte 1.
abbrev msg : SubscribeMsg
msg = record {
  client_id = text "07-tendermint-1119";
  key_path = text "wasm" ∷ [];
  watch_key = text "AQ==";
  condition = some (when_equals (text "true"));
  callback_contract = text "cosmos1callback";
  callback_msg = text "e30=";
  expires_after_blocks = none;
}

msg_made : subscribe_msg form (bytes_to_hex (1 ∷ [])) ≡ ok msg
unfolding subscribe_msg bytes_to_hex text encode_base64 btoa build_condition watch_key_base64
    text_eq byte_to_hex to_uint8 parse_int to_double
msg_made = refl

form_watched_example :
    process_subscription working test_engine watched (text "words")
    ≡ watching working test_engine (text "words") watched (bytes_to_hex (1 ∷ []))
form_watched_example =
    form_watched working test_engine (text "words") form 1 [] msg watched (omega arith, tt) msg_made
      refl

-- `true` is base64 for three bytes.
abbrev decoded : List ℕ
decoded = 182 ∷ 187 ∷ 158 ∷ []

true_decoded : atob (text "true") ≡ some decoded
unfolding atob text
true_decoded = refl

equals_refuses_itself_example :
    (build_condition form ≡ some (when_equals (text "true")))
    × (check_condition test_engine (equals (text "true")) (text "true") ≡ false)
unfolding text
equals_refuses_itself_example =
    equals_refuses_itself test_engine form decoded refl true_decoded (omega arith) (omega arith)
