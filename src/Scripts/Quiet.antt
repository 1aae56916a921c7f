-- ===== src/Scripts/Quiet.antt =====
-- The calls of scripts/proof.ts and scripts/test-flow.ts that send nothing, and what they return.
use interchain_event.Common.{
  ℕ, zero, suc, ◌≡◌, refl, false, Option, none, some, map, Bool-cases, inl, inr,
}
use interchain_event.Js.Text.{Text}
use interchain_event.Codec.Hex.{Bytes}
use interchain_event.Codec.Key.Build.{build_attestation_iavl_key}
use interchain_event.Codec.Merkle.{build_merkle_proof}
use interchain_event.Watcher.Fetch.{is_empty}
use interchain_event.Watcher.Machine.{ok, Whole}
use interchain_event.Watcher.Submit.{range_error}
use interchain_event.Scripts.Session.{
  Flag, get_attestation, get_events, get_subscription, Query, ScriptResponse, Network,
}
use interchain_event.Scripts.Proof.{
  ScriptProof, script_query_url, decode_script_response, script_fetch_state, script_block_url,
  script_app_hash_attempts, script_fetch_app_hash, merkle_op, encode_proof_for_contract,
  hex_to_uint8_array,
}
use interchain_event.Scripts.Flow.{
  Flags, flag_text, query_contract, query_callback_events, query_subscription, query_attestation,
  query_mode,
}
use interchain_event.Scripts.Stays.{
  Gets, Gets-map, >>=-Gets, done-Gets, fail-Gets, request-Gets, settled-Gets, or_fail-Gets,
  attempt-Gets,
}

module _ (network : Network) where
  -- A block that the node answered with, and its app hash.
  abbrev pub FromBlock : Whole → Bytes → Type 0
  FromBlock height app_hash =
      (n : ℕ) × (hex : Text) × (network.block_app_hash n (script_block_url height) ≡ ok (some hex))
      × (is_empty hex ≡ false)
      × (app_hash ≡ hex_to_uint8_array hex)

  app_hash_attempts-Gets :
      (rounds : ℕ) (height : Whole)
      → Gets (FromBlock height) (script_app_hash_attempts network rounds height)
  unfolding script_app_hash_attempts
  app_hash_attempts-Gets zero height = fail-Gets _
  app_hash_attempts-Gets (suc rounds) height =
      let later =
        >>=-Gets {Q = λ (u : Unit {0}). (n : ℕ) × (ok tt ≡ ok u)} (request-Gets (λ n. ok tt))
          (λ u q. app_hash_attempts-Gets rounds height) in
      >>=-Gets (request-Gets (λ n. network.block_app_hash n (script_block_url height))) (elim [
        | none ↦ λ q. later
        | some hex ↦ λ (n, answered). elim (Bool-cases (is_empty hex)) [
          | inl gone ↦ rw gone later
          | inr there ↦ rw there (done-Gets _ (n, hex, answered, there, refl))
        ]
      ])

  -- The response that a proof comes from.
  abbrev pub FromNode : Text → Option Whole → ScriptProof → Type 0
  FromNode key_hex height proof =
      (n : ℕ) × (r : ScriptResponse) × (network.abci_query n (script_query_url key_hex height)
        ≡ ok r)
      × (decode_script_response network r ≡ ok proof)

  pub script_fetch_state-Gets :
      (key_hex : Text) (height : Option Whole)
      → Gets (FromNode key_hex height) (script_fetch_state network key_hex height)
  unfolding script_fetch_state
  script_fetch_state-Gets key_hex height =
      >>=-Gets (request-Gets (λ n. network.abci_query n (script_query_url key_hex height)))
        λ r (n, answered).
          Gets-map (λ proof decoded. (n, r, answered, decoded))
            (settled-Gets (decode_script_response network r))

  pub encode_proof-Gets :
      (proof : ScriptProof)
      → Gets
          (λ e.
            (merkle : Bytes) × (app_hash : Bytes) × (build_merkle_proof
                (map merkle_op proof.proof_ops)
              ≡ some merkle)
            × FromBlock proof.height app_hash
            × (e ≡ record {
              app_hash = network.to_base64 app_hash;
              proof = network.to_base64 merkle;
              key = network.to_base64 proof.key;
              value = network.to_base64 proof.value;
            }))
          (encode_proof_for_contract network proof)
  unfolding encode_proof_for_contract script_fetch_app_hash
  encode_proof-Gets proof =
      >>=-Gets (or_fail-Gets range_error (build_merkle_proof (map merkle_op proof.proof_ops)))
        λ merkle built.
          >>=-Gets (app_hash_attempts-Gets 10 proof.height)
            λ app_hash q. done-Gets _ (merkle, app_hash, built, q, refl)

  pub query_contract-Gets : (q : Query) → Gets (λ u. Unit {0}) (query_contract network q)
  unfolding query_contract
  query_contract-Gets q = Gets-map (λ a h. tt) (request-Gets (λ n. network.query n q))

  pub query_callback-Gets : Gets (λ u. Unit {0}) (query_callback_events network)
  unfolding query_callback_events
  query_callback-Gets =
      >>=-Gets (request-Gets network.connect_hub) λ u q. query_contract-Gets get_events

  query_subscription-Gets : (n : Whole) → Gets (λ u. Unit {0}) (query_subscription network n)
  unfolding query_subscription
  query_subscription-Gets n =
      >>=-Gets (request-Gets network.connect_hub) λ u q. query_contract-Gets (get_subscription n)

  pub query_attestation-Gets : (id : Flag) → Gets (λ u. Unit {0}) (query_attestation network id)
  unfolding query_attestation
  query_attestation-Gets id =
      >>=-Gets (request-Gets network.connect_neutron)
        λ u q. attempt-Gets (query_contract-Gets (get_attestation id)) (done-Gets _ tt)

  pub query_mode-Gets :
      (flags : Flags) (id : Flag) → Gets (λ u. Unit {0}) (query_mode network flags id)
  unfolding query_mode
  query_mode-Gets flags id = >>=-Gets (query_attestation-Gets id) λ u q.
      >>=-Gets (or_fail-Gets range_error (build_attestation_iavl_key (flag_text id))) λ key built.
        >>=-Gets (attempt-Gets (query_subscription-Gets _) (done-Gets _ tt))
          λ u' q'. query_callback-Gets
