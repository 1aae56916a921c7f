-- ===== src/Scripts/Protocol.antt =====
-- The messages that a run of scripts/test-flow.ts may send, by its flags and its environment.
use interchain_event.Common.{ℕ, ◌≡◌, true, false, none, some, List, [], ◌∷◌, map}
use interchain_event.Js.Text.{Text, text}
use interchain_event.Codec.Hex.{Bytes, bytes_to_hex}
use interchain_event.Codec.Key.Build.{build_attestation_iavl_key}
use interchain_event.Codec.Merkle.{build_merkle_proof}
use interchain_event.Watcher.Fetch.{is_empty}
use interchain_event.Watcher.Machine.{ok, Whole}
use interchain_event.Watcher.Submit.{neutron_revision_number}
use interchain_event.Scripts.Session.{
  Flag, Encoded, Tx, attest, subscribe, submit_proof, ScriptResponse, Network,
}
use interchain_event.Scripts.Proof.{
  ScriptProof, script_query_url, decode_script_response, script_block_url, hex_to_uint8_array,
  merkle_op,
}
use interchain_event.Scripts.Flow.{
  Flags, flag, is_bare, flag_or, flag_text, starts_with_flag, Env, env_or, subscription_msg,
}

-- What a submitted proof carries: key, value and height of a response of the remote node to a query
-- of the attestation's key, the Merkle proof of its entries, and the app hash that the node gives for
-- the block after that height.
pub record IsProven (network : Network) (id : Flag) (height : Whole) (encoded : Encoded)
    : Type 0 where
  pub key : Bytes
  pub proof : ScriptProof
  pub response : ScriptResponse
  pub call : ℕ
  pub keyed : build_attestation_iavl_key (flag_text id) ≡ some key
  pub answered : network.abci_query call (script_query_url (bytes_to_hex key) none) ≡ ok response
  pub decoded : decode_script_response network response ≡ ok proof
  pub at_height : height ≡ proof.height
  pub merkle : Bytes
  pub built : build_merkle_proof (map merkle_op proof.proof_ops) ≡ some merkle
  pub block_call : ℕ
  pub hex : Text
  pub block_answered :
      network.block_app_hash block_call (script_block_url proof.height) ≡ ok (some hex)
  pub hex_there : is_empty hex ≡ false
  pub of_app_hash : encoded.app_hash ≡ network.to_base64 (hex_to_uint8_array hex)
  pub of_proof : encoded.proof ≡ network.to_base64 merkle
  pub of_key : encoded.key ≡ network.to_base64 proof.key
  pub of_value : encoded.value ≡ network.to_base64 proof.value

abbrev pub hub : Env → Text
hub env = env_or env.mnemonic_hub env.mnemonic

abbrev pub neutron : Env → Text
neutron env = env_or env.mnemonic_neutron env.mnemonic

abbrev pub chosen_id : Flags → Flag
chosen_id flags = flag_or (text "cosmos1abc") (flag (text "attestation-id") flags)

abbrev pub chosen_client : Flags → Flag
chosen_client flags = flag_or (text "07-tendermint-1119") (flag (text "client-id") flags)

abbrev pub attestation : Flags → Tx
attestation flags = attest (chosen_id flags) (text "approved")

abbrev pub subscription : Network → Flags → Bytes → Tx
subscription network flags key =
    subscribe (subscription_msg network (flag_text (chosen_client flags)) key)

-- The arguments and the environment ask for a run that signs.
pub record Signs (flags : Flags) (env : Env) : Type 0 where
  pub not_query : is_bare (flag (text "query-only") flags) ≡ false
  pub with_hub : is_empty (hub env) ≡ false

-- They ask for the full flow.
pub record IsFull (flags : Flags) (env : Env) : Type 0 where
  pub signs : Signs flags env
  pub not_submit : is_bare (flag (text "submit-proof") flags) ≡ false
  pub with_neutron : is_empty (neutron env) ≡ false
  pub with_client : starts_with_flag (chosen_client flags) (text "07-tendermint-") ≡ ok true

-- The messages of a run, last first.
pub data Behaves (network : Network) (flags : Flags) (env : Env) : List Tx → Type 0 where
  silent : Behaves network flags env []
  proved :
      {n h : Whole} {e : Encoded}
      → Signs flags env
      → is_bare (flag (text "submit-proof") flags) ≡ true
      → IsProven network (chosen_id flags) h e
      → Behaves network flags env (submit_proof n neutron_revision_number h e ∷ [])
  attested : IsFull flags env → Behaves network flags env (attestation flags ∷ [])
  subscribed :
      {key : Bytes}
      → IsFull flags env
      → build_attestation_iavl_key (flag_text (chosen_id flags)) ≡ some key
      → Behaves network flags env (subscription network flags key ∷ attestation flags ∷ [])
  completed :
      {key : Bytes} {n h : Whole} {e : Encoded}
      → IsFull flags env
      → build_attestation_iavl_key (flag_text (chosen_id flags)) ≡ some key
      → IsProven network (chosen_id flags) h e
      → Behaves network flags env (
          submit_proof n neutron_revision_number h e
          ∷ subscription network flags key
          ∷ attestation flags
          ∷ [])
