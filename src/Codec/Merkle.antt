-- ===== src/Codec/Merkle.antt =====
-- `buildMerkleProof` (scripts/proof.ts and frontend/server/utils/watcher.ts).
pub mod RoundTrip
use interchain_event.Common.{
  ℕ, zero, suc, ◌%◌, ◌+◌, Option, none, some, List, [], ◌∷◌, ◌++◌, length, take, drop, ltb, ◌==◌,
  if◌then◌else◌,
}
use interchain_event.Js.Text.{Text}
use interchain_event.Codec.Hex.{Bytes}
use interchain_event.Codec.Concat.{concat_bytes}
use interchain_event.Codec.Varint.{encode_varint, read_varint}

-- The `type` and the `data` of one entry of `proofOps.ops`.
pub record ProofOp : Type 0 where
  pub kind : Text
  pub contents : Bytes

-- The loop that pushes a tag, a length and the bytes for each entry.
unfoldable pub merkle_parts : List ProofOp → List Bytes
merkle_parts [] = []
merkle_parts (op ∷ ops) =
    (0x0a ∷ []) ∷ encode_varint (length op.contents) ∷ op.contents ∷ merkle_parts ops

unfoldable pub build_merkle_proof : List ProofOp → Option Bytes
unfolding merkle_parts
build_merkle_proof ops = concat_bytes (merkle_parts ops)

-- A reader of `message MerkleProof { repeated bytes proofs = 1; }`, written from protobuf's wire
-- format and not from the writer: each field is a tag, a length of at most ten bytes, and contents.
unfoldable pub read_field : Bytes → Option (Bytes × Bytes)
read_field [] = none
read_field (tag ∷ bytes) =
    if tag == 0x0a
    then elim (read_varint 10 bytes) [
      | none ↦ none
      | some (n, rest) ↦ if ltb (length rest) n then none else some (take n rest, drop n rest)
    ]
    else none

unfoldable pub read_fields : ℕ → Bytes → Option (List Bytes)
read_fields fuel [] = some []
read_fields zero (b ∷ bytes) = none
read_fields (suc fuel) (b ∷ bytes) = elim (read_field (b ∷ bytes)) [
  | none ↦ none
  | some (proof, rest) ↦ elim (read_fields fuel rest) [
    | none ↦ none
    | some proofs ↦ some (proof ∷ proofs)
  ]
]

-- Every field takes a byte at least, so the length is fuel enough.
unfoldable pub read_merkle_proof : Bytes → Option (List Bytes)
read_merkle_proof bytes = read_fields (length bytes) bytes
