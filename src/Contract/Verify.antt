-- ===== src/Contract/Verify.antt =====
-- contracts/interchain-events/src/verification.rs, and `decode_merkle_proof` of proto.rs.
use interchain_event.Common.{Bool, ◌&&◌, Option, none, some, List, [], ◌∷◌, if◌then◌else◌}
use interchain_event.Js.Text.{Text}
use interchain_event.Js.Utf8.{text_encode}
use interchain_event.Codec.Hex.{Bytes}
use interchain_event.Contract.Types.{
  Result, ok, err, ◌>>=◌, empty_key_path, proof_verification_failed, proto_decode,
}

-- What the contract calls of prost and ics23. `existence` is the `Exist` proof of a commitment, if it
-- is one, and the two `verify_membership` are those of the IAVL and the Tendermint spec.
pub record Ics23 : Type 1 where
  pub Commitment : Type 0
  pub Existence : Type 0
  pub decode_merkle : Bytes → Option (List Bytes)
  pub decode_commitment : Bytes → Option Commitment
  pub existence : Commitment → Option Existence
  pub calculate_root : Existence → Option Bytes
  pub verify_iavl : Commitment → Bytes → Bytes → Bytes → Bool
  pub verify_tendermint : Commitment → Bytes → Bytes → Bytes → Bool

abbrev pub or_err : {A : Type 0} → Result A → Option A → Result A
or_err e none = e
or_err e (some a) = ok a

module _ (ics23 : Ics23) where
  unfoldable pub decode_merkle_proof : Bytes → Result (Bytes × Bytes)
  decode_merkle_proof proof_bytes = elim (ics23.decode_merkle proof_bytes) [
    | some (iavl ∷ simple ∷ []) ↦ ok (iavl, simple)
    | some proofs ↦ err proof_verification_failed
    | none ↦ err proto_decode
  ]

  -- From the two commitments on, for the store's name.
  unfoldable pub verify_commitments :
      Bytes → Text → Bytes → Bytes → Bytes × Bytes → Result (Unit {0})
  verify_commitments app_hash store_name key value (iavl_bytes, simple_bytes) = do
    iavl ← or_err (err proto_decode) (ics23.decode_commitment iavl_bytes)
    simple ← or_err (err proto_decode) (ics23.decode_commitment simple_bytes)
    iavl_existence ← or_err (err proof_verification_failed) (ics23.existence iavl)
    module_root ← or_err (err proof_verification_failed) (ics23.calculate_root iavl_existence)
    if ics23.verify_iavl iavl module_root key value
          && ics23.verify_tendermint simple app_hash (text_encode store_name) module_root
        then ok tt
        else err proof_verification_failed

  unfoldable pub verify_chained_membership :
      Bytes → Bytes → List Text → Bytes → Bytes → Result (Unit {0})
  unfolding decode_merkle_proof verify_commitments
  verify_chained_membership app_hash proof_bytes [] key value = err empty_key_path
  verify_chained_membership app_hash proof_bytes (store_name ∷ path) key value = do
    proofs ← decode_merkle_proof proof_bytes
    verify_commitments app_hash store_name key value proofs
