-- ===== src/Tests/Scripts.antt =====
-- The scripts at concrete inputs.
use interchain_event.Common.{◌≡◌, refl, false, none, some, List, [], ◌∷◌}
use interchain_event.Js.Double.{to_double}
use interchain_event.Js.Text.{Text, text}
use interchain_event.Js.Number.{parse_int}
use interchain_event.Js.Base64.{atob}
use interchain_event.Watcher.Machine.{ok}
use interchain_event.Watcher.Fetch.{decode_response, is_empty}
use interchain_event.Scripts.Session.{ScriptResponse, Network, Session}
use interchain_event.Scripts.Proof.{ScriptProof, decode_script_response}
use interchain_event.Scripts.Flow.{Env, parse_args, main}
use interchain_event.Scripts.Order.{main-Behaves}
use interchain_event.Scripts.Protocol.{Behaves}
use interchain_event.Scripts.Decode.{watcher_response, watcher_proof, script_response_watched}

abbrev response : ScriptResponse
response = record {
  code = some 0;
  log = [];
  key = text "AQ==";
  value = text "AQID";
  height = text "41";
  ops = some (record { kind = text "ics23:iavl"; key = text "AQ=="; contents = text "BAU=" } ∷ []);
}

abbrev network : Network
network = record {
  abci_query = λ n url. ok response;
  block_app_hash = λ n url. ok (some (text "ab"));
  connect_hub = λ n. ok tt;
  connect_neutron = λ n. ok tt;
  query = λ n q. ok tt;
  sign_in_hub = λ n mnemonic. ok (text "cosmos1signer");
  sign_in_neutron = λ n mnemonic. ok (text "neutron1signer");
  execute = λ n address tx. ok (record { transaction_hash = text "TX"; events = [] }, 42);
  to_base64 = λ bytes. bytes;
  from_base64 = atob;
}

abbrev env : Env
env = record { mnemonic_hub = none; mnemonic_neutron = none; mnemonic = some (text "words") }

abbrev args : List Text
args = text "--attestation-id=cosmos1xyz" ∷ text "--client-id=07-tendermint-7" ∷ []

abbrev session : Session
session = record { calls = 0; sent = [] }

main-Behaves_example : Behaves network (parse_args args) env (main network args env session).1.sent
main-Behaves_example = main-Behaves network args env session refl

abbrev proof : ScriptProof
proof = record {
  key = 1 ∷ [];
  value = 1 ∷ 2 ∷ 3 ∷ [];
  height = some (false, 41);
  proof_ops = record { kind = text "ics23:iavl"; key = 1 ∷ []; contents = 4 ∷ 5 ∷ [] } ∷ [];
}

decoded : decode_script_response network response ≡ ok proof
unfolding decode_script_response atob text parse_int to_double
decoded = refl

script_response_watched_example :
    (is_empty response.value ≡ false)
    × (decode_response (watcher_response response) ≡ ok (watcher_proof proof))
script_response_watched_example =
    script_response_watched network (λ s b e. e) response proof decoded
