-- ===== src/Tests/Data.antt =====
-- Services, an engine and machines to run the watcher on.
use interchain_event.Common.{ℕ, ◌+◌, true, none, some, [], ◌∷◌, length, ltb, if◌then◌else◌}
use interchain_event.Js.Text.{Text, text, text_eq}
use interchain_event.Js.Value.{Value, str, obj, field, end}
use interchain_event.Watcher.Types.{equals, named, Subscription, initial_state}
use interchain_event.Watcher.Condition.{Engine}
use interchain_event.Watcher.Machine.{Services, Machine, ok, threw}

-- The value `{"s":"ok"}` and its JSON.
abbrev pub json_text : Text
json_text = text "{\"s\":\"ok\"}"

abbrev pub json_value : Value
json_value = obj (field (text "s") (str (text "ok")) end)

abbrev pub test_engine : Engine
test_engine = record {
  Float = ℕ;
  parse_float = length;
  float_lt = ltb;
  parse_json = λ s. if text_eq s json_text then some json_value else none;
  inherited = λ v name. none;
}

-- A subscription to the key of byte 1 for the value of bytes 1, 2 and 3.
abbrev pub watched : Subscription
watched = record {
  id = 7;
  creator = text "neutron1creator";
  client_id = text "07-tendermint-1119";
  key_path = text "wasm" ∷ [];
  watch_key = text "AQ==";
  condition = equals (text "AQID");
  callback_contract = text "neutron1callback";
  callback_msg = [];
  status = named (text "active");
  created_at = 1;
  expires_at = none;
}

-- The remote node serves the value with a proof of one entry, and finds the block at once.
abbrev pub working : Services
working = record {
  now = λ n. 1000 + n;
  abci_query = λ n url. ok (record {
    key = text "AQ==";
    value = text "AQID";
    height = text "41";
    ops = some ((text "ics23:iavl", text "BAU=") ∷ []);
  });
  block_app_hash = λ n url. ok (some (text "ab"));
  connect = λ n. ok tt;
  list_subscriptions = λ n limit. ok (some (watched ∷ []));
  sign_in = λ n mnemonic. ok (text "neutron1watcher");
  execute = λ n address msg. ok (text "TX");
  to_base64 = λ bytes. bytes;
  stringify = λ c. text "{}";
}

-- The contract's node is down, and the remote node has no blocks.
abbrev pub down : Services
down = record working {
  connect = λ n. threw (text "ECONNREFUSED");
  block_app_hash = λ n url. ok none;
}

-- The block comes with the second query.
abbrev pub late : Services
late = record working { block_app_hash = λ n url. ok (if ltb n 2 then none else some (text "ab")) }

abbrev pub started : Machine
started = record { state = record initial_state { running = true }; calls = 0; sent = [] }
