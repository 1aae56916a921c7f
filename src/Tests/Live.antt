-- ===== src/Tests/Live.antt =====
-- A run of the watcher that submits a proof, with the block there at once.
use interchain_event.Common.{◌≡◌, refl, arith, true, false, some, [], ◌∷◌}
use interchain_event.Js.Double.{to_double}
use interchain_event.Js.Text.{text, text_eq}
use interchain_event.Js.Number.{parse_int}
use interchain_event.Js.Base64.{atob}
use interchain_event.Js.Utf8.{text_decode}
use interchain_event.Codec.Hex.{hex_to_bytes}
use interchain_event.Codec.Merkle.{build_merkle_proof}
use interchain_event.Codec.Varint.{encode_varint}
use interchain_event.Codec.Concat.{concat_bytes}
use interchain_event.Watcher.Condition.{check_condition, check_equals}
use interchain_event.Watcher.Machine.{AbciResponse, ok}
use interchain_event.Watcher.Fetch.{ProofResult, decode_response, decode_ops}
use interchain_event.Watcher.Submit.{submit_proof_msg}
use interchain_event.Watcher.Process.{process_subscription}
use interchain_event.Watcher.Live.{Comes, process_subscription_submits}
use interchain_event.Tests.Data.{test_engine, watched, working, started}

abbrev pub response : AbciResponse
response = record {
  key = text "AQ==";
  value = text "AQID";
  height = text "41";
  ops = some ((text "ics23:iavl", text "BAU=") ∷ []);
}

abbrev pub proof : ProofResult
proof = record {
  key = 1 ∷ [];
  value = 1 ∷ 2 ∷ 3 ∷ [];
  height = some (false, 41);
  proof_ops = record { kind = text "ics23:iavl"; contents = 4 ∷ 5 ∷ [] } ∷ [];
}

pub decoded : decode_response response ≡ ok proof
unfolding decode_response decode_ops atob text parse_int to_double
decoded = refl

met : check_condition test_engine watched.condition proof.value ≡ true
unfolding check_condition check_equals atob text text_eq text_decode
met = refl

pub built : build_merkle_proof proof.proof_ops ≡ some (10 ∷ 2 ∷ 4 ∷ 5 ∷ [])
unfolding build_merkle_proof concat_bytes encode_varint
built = refl

pub readable : atob watched.watch_key ≡ some (1 ∷ [])
unfolding atob text
readable = refl

pub comes : Comes working proof.height 0 b'a' (text "b") 3
unfolding text
comes = record { few = omega arith; missing = λ k less. absurd (omega arith); found = refl }

process_subscription_submits_example :
    ((process_subscription working test_engine watched (text "words") started).0 ≡ ok tt)
    × ((process_subscription working test_engine watched (text "words") started).1.sent
        ≡ submit_proof_msg working 7 proof (hex_to_bytes (text "ab")) (10 ∷ 2 ∷ 4 ∷ 5 ∷ []) ∷ [])
unfolding text
process_subscription_submits_example =
    process_subscription_submits working test_engine watched (text "words") (1 ∷ []) response proof
      (10 ∷ 2 ∷ 4 ∷ 5 ∷ []) 0 b'a' (text "b") (text "neutron1watcher") (text "TX") refl readable
      (λ n. refl) refl decoded met built (λ n. refl) (λ n msg. refl) started comes
