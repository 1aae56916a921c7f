-- ===== src/Watcher/Fetch.antt =====
-- `fetchStateWithProof` and `fetchAppHash` of frontend/server/utils/watcher.ts.
use interchain_event.Common.{
  ℕ, zero, suc, Bool, true, false, Option, none, some, List, [], ◌∷◌, ◌++◌, if◌then◌else◌,
}
use interchain_event.Js.Text.{Text, text}
use interchain_event.Js.Number.{parse_int}
use interchain_event.Js.Base64.{atob}
use interchain_event.Codec.Hex.{Bytes, hex_to_bytes}
use interchain_event.Codec.Merkle.{ProofOp}
use interchain_event.Watcher.Machine.{
  Services, AbciResponse, Whole, next_height, whole_text, Outcome, ok, threw, M, ◌>>=◌, ◌>>◌,
  return, throw, call, sleep, settle,
}

abbrev pub neutron_rpc : Text
neutron_rpc = text "https://rpc-kralum.neutron-1.neutron.org"

-- The messages of errors that the platform throws.
abbrev pub bad_base64 : Text
bad_base64 = text "InvalidCharacterError"

abbrev pub bad_response : Text
bad_response = text "TypeError"

pub record ProofResult : Type 0 where
  pub key : Bytes
  pub value : Bytes
  pub height : Whole
  pub proof_ops : List ProofOp

unfoldable pub abci_url : Text → Text
abci_url key_hex =
    neutron_rpc
    ++ (text "/abci_query?path=\"store/wasm/key\"&data=0x" ++ (key_hex ++ text "&prove=true"))

unfoldable pub block_url : Whole → Text
block_url height = neutron_rpc ++ (text "/block?height=" ++ whole_text (next_height height))

-- `fromBase64(op.data)` for every op, `none` where one is no base64.
unfoldable pub decode_ops : List (Text × Text) → Option (List ProofOp)
decode_ops [] = some []
decode_ops ((kind, encoded) ∷ ops) = elim (atob encoded) [
  | none ↦ none
  | some contents ↦ elim (decode_ops ops) [
    | none ↦ none
    | some rest ↦ some (record { kind = kind; contents = contents } ∷ rest)
  ]
]

abbrev pub is_empty : Text → Bool
is_empty [] = true
is_empty (c ∷ s) = false

-- The value's proof out of a response that has a value.
unfoldable pub decode_response : AbciResponse → Outcome ProofResult
decode_response r = elim (atob r.key) [
  | none ↦ threw bad_base64
  | some key ↦ elim (atob r.value) [
    | none ↦ threw bad_base64
    | some value ↦ elim r.ops [
      | none ↦ threw bad_response
      | some ops ↦ elim (decode_ops ops) [
        | none ↦ threw bad_base64
        | some proof_ops ↦ ok (record {
          key = key;
          value = value;
          height = parse_int 10 r.height;
          proof_ops = proof_ops;
        })
      ]
    ]
  ]
]

module _ (services : Services) where
  unfoldable pub fetch_state_with_proof : Text → M (Option ProofResult)
  fetch_state_with_proof key_hex = do
    r ← call (λ n. services.abci_query n (abci_url key_hex))
    if is_empty r.value
        then return none
        else (do proof ← settle (decode_response r); return (some proof))

  unfoldable pub no_app_hash : Whole → Text
  no_app_hash height = text "Failed to fetch app_hash for block " ++ whole_text (next_height height)

  -- The rounds of `for (let attempt = 0; attempt < 10; attempt++)` that are left.
  unfoldable pub app_hash_attempts : ℕ → Whole → M Bytes
  app_hash_attempts zero height = throw (no_app_hash height)
  app_hash_attempts (suc attempts) height = do
    found ← call (λ n. services.block_app_hash n (block_url height))
    elim found [
      | none ↦ sleep >> app_hash_attempts attempts height
      | some hex ↦
          if is_empty hex
          then (sleep >> app_hash_attempts attempts height)
          else return (hex_to_bytes hex)
    ]

  unfoldable pub fetch_app_hash : Whole → M Bytes
  unfolding app_hash_attempts
  fetch_app_hash height = app_hash_attempts 10 height
