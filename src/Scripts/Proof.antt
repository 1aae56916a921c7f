-- ===== src/Scripts/Proof.antt =====
-- scripts/proof.ts.
use interchain_event.Common.{
  ℕ, zero, suc, Bool, false, not, Option, none, some, List, [], ◌∷◌, ◌++◌, ◌==◌, map, if◌then◌else◌,
}
use interchain_event.Js.Text.{Text, text}
use interchain_event.Js.Number.{parse_int, to_uint8, to_text}
use interchain_event.Codec.Hex.{Bytes}
use interchain_event.Codec.Merkle.{ProofOp, build_merkle_proof}
use interchain_event.Watcher.Fetch.{is_empty, bad_response}
use interchain_event.Watcher.Machine.{Outcome, ok, threw, Whole, next_height, whole_text}
use interchain_event.Watcher.Submit.{range_error}
use interchain_event.Scripts.Session.{
  Encoded, ScriptOp, ScriptResponse, Network, S, ◌>>=◌, ◌>>◌, done, fail, request, settled, or_fail,
}

abbrev pub script_rpc : Text
script_rpc = text "https://rpc-kralum.neutron-1.neutron.org:443"

abbrev pub not_base64 : Text
not_base64 = text "Invalid base64 string format"

pub record ScriptProofOp : Type 0 where
  pub kind : Text
  pub key : Bytes
  pub contents : Bytes

pub record ScriptProof : Type 0 where
  pub key : Bytes
  pub value : Bytes
  pub height : Whole
  pub proof_ops : List ScriptProofOp

-- `if (height)`: 0 and NaN are falsy.
abbrev pub is_height : Option Whole → Bool
is_height none = false
is_height (some none) = false
is_height (some (some (minus, n))) = not (n == 0)

abbrev pub height_text : Option Whole → Text
height_text none = []
height_text (some h) = whole_text h

unfoldable pub script_query_url : Text → Option Whole → Text
script_query_url key_hex height =
    let url : Text =
      script_rpc
      ++ (text "/abci_query?path=\"store/wasm/key\"&data=0x" ++ (key_hex ++ text "&prove=true")) in
    if is_height height then url ++ (text "&height=" ++ height_text height) else url

-- `result.code !== 0 && result.code !== undefined`
abbrev pub is_failure : Option ℕ → Bool
is_failure none = false
is_failure (some code) = not (code == 0)

abbrev pub code_text : Option ℕ → Text
code_text none = text "undefined"
code_text (some code) = to_text code

-- The loop of `hexToUint8Array`; a write beyond the array, of a last odd digit, is dropped.
unfoldable pub hex_to_uint8_array : Text → Bytes
hex_to_uint8_array (a ∷ b ∷ hex) = to_uint8 (parse_int 16 (a ∷ b ∷ [])) ∷ hex_to_uint8_array hex
hex_to_uint8_array _ = []

-- The entries as `buildMerkleProof` reads them.
abbrev pub merkle_op : ScriptProofOp → ProofOp
merkle_op op = record { kind = op.kind; contents = op.contents }

unfoldable pub script_block_url : Whole → Text
script_block_url height = script_rpc ++ (text "/block?height=" ++ whole_text (next_height height))

module _ (network : Network) where
  unfoldable pub decode_script_ops : List ScriptOp → Option (List ScriptProofOp)
  decode_script_ops [] = some []
  decode_script_ops (op ∷ ops) = elim (network.from_base64 op.key) [
    | none ↦ none
    | some key ↦ elim (network.from_base64 op.contents) [
      | none ↦ none
      | some contents ↦ elim (decode_script_ops ops) [
        | none ↦ none
        | some rest ↦ some (record { kind = op.kind; key = key; contents = contents } ∷ rest)
      ]
    ]
  ]

  -- What stands behind the checks of code and value.
  unfoldable pub decode_checked : ScriptResponse → Outcome ScriptProof
  decode_checked r = elim (network.from_base64 r.key) [
    | none ↦ threw not_base64
    | some key ↦ elim (network.from_base64 r.value) [
      | none ↦ threw not_base64
      | some value ↦ elim r.ops [
        | none ↦ threw bad_response
        | some ops ↦ elim (decode_script_ops ops) [
          | none ↦ threw not_base64
          | some proof_ops ↦ ok (record {
            key = key;
            value = value;
            height = parse_int 10 r.height;
            proof_ops = proof_ops;
          })
        ]
      ]
    ]
  ]

  unfoldable pub decode_script_response : ScriptResponse → Outcome ScriptProof
  unfolding decode_checked decode_script_ops
  decode_script_response r =
      if is_failure r.code
      then threw (text "abci_query failed: code=" ++ (code_text r.code ++ (text " log=" ++ r.log)))
      else if is_empty r.value
      then threw
          (text "abci_query returned no value - the attestation may not exist at this height")
      else decode_checked r

  unfoldable pub script_fetch_state : Text → Option Whole → S ScriptProof
  script_fetch_state key_hex height = do
    r ← request (λ n. network.abci_query n (script_query_url key_hex height))
    settled (decode_script_response r)

  -- The rounds that are left of the ten.
  unfoldable pub script_app_hash_attempts : ℕ → Whole → S Bytes
  script_app_hash_attempts zero height =
      fail (text "Failed to fetch app_hash for block " ++ whole_text (next_height height))
  script_app_hash_attempts (suc rounds) height = do
    found ← request (λ n. network.block_app_hash n (script_block_url height))
    elim found [
      | none ↦ request (λ n. ok tt) >> script_app_hash_attempts rounds height
      | some hex ↦
          if is_empty hex
          then (request (λ n. ok tt) >> script_app_hash_attempts rounds height)
          else done (hex_to_uint8_array hex)
    ]

  unfoldable pub script_fetch_app_hash : Whole → S Bytes
  unfolding script_app_hash_attempts
  script_fetch_app_hash height = script_app_hash_attempts 10 height

  unfoldable pub encode_proof_for_contract : ScriptProof → S Encoded
  encode_proof_for_contract proof = do
    merkle_proof ← or_fail range_error (build_merkle_proof (map merkle_op proof.proof_ops))
    app_hash ← script_fetch_app_hash proof.height
    done (record {
      app_hash = network.to_base64 app_hash;
      proof = network.to_base64 merkle_proof;
      key = network.to_base64 proof.key;
      value = network.to_base64 proof.value;
    })
