-- ===== src/Codec/Merkle/RoundTrip.antt =====
-- A protobuf reader gets back the proofs that `buildMerkleProof` was given.
use interchain_event.Common.{
  ℕ, zero, suc, ◌^◌, ◌≤◌, ◌<◌, ◌≡◌, refl, some, List, [], ◌∷◌, ◌++◌, arith, length, map, All,
  take-length_append, drop-length_append, length-append,
}
use interchain_event.Codec.Hex.{Bytes}
use interchain_event.Codec.Concat.{joined, concat_bytes-eq-joined}
use interchain_event.Codec.Varint.{encode_varint, read_varint-encode_varint}
use interchain_event.Codec.Merkle.{
  ProofOp, merkle_parts, build_merkle_proof, read_field, read_fields, read_merkle_proof,
}

-- A typed array has fewer than 2 ^ 32 places.
abbrev pub IsSized : ProofOp → Type 0
IsSized op = length op.contents < 2 ^ 32

abbrev encoded : List ProofOp → Bytes
encoded ops = joined (merkle_parts ops)

read_field-encoded :
    (contents rest : Bytes)
    → length contents < 2 ^ 32
    → read_field (0x0a ∷ (encode_varint (length contents) ++ (contents ++ rest)))
      ≡ some (contents, rest)
unfolding read_field
read_field-encoded contents rest h = ground (
  arith,
  read_varint-encode_varint (length contents) (contents ++ rest) h,
  take-length_append contents rest,
  drop-length_append contents rest,
  length-append contents rest,
)

read_fields_step :
    (fuel b : ℕ) (bytes : Bytes) {proof rest : Bytes} {proofs : List Bytes}
    → read_field (b ∷ bytes) ≡ some (proof, rest)
    → read_fields fuel rest ≡ some proofs
    → read_fields (suc fuel) (b ∷ bytes) ≡ some (proof ∷ proofs)
unfolding read_fields
read_fields_step fuel b bytes here later = rw (here, read_fields) (rw later)

encoded_shorter :
    (op : ProofOp) (ops : List ProofOp) → length (encoded ops) < length (encoded (op ∷ ops))
unfolding merkle_parts joined
encoded_shorter op ops = simp length-append (omega arith)

read_fields-encoded :
    (ops : List ProofOp) (fuel : ℕ)
    → All IsSized ops
    → length (encoded ops) ≤ fuel
    → read_fields fuel (encoded ops) ≡ some (map (λ op. op.contents) ops)
unfolding merkle_parts joined
read_fields-encoded [] fuel h enough = unfold read_fields in refl
read_fields-encoded (op ∷ ops) zero h enough = absurd (omega arith)
read_fields-encoded (op ∷ ops) (suc fuel) (here, h) enough =
    read_fields_step fuel _ _ (read_field-encoded op.contents (encoded ops) here)
      (read_fields-encoded ops fuel h (omega (arith, encoded_shorter op ops)))

-- For any proof entries whose contents are shorter than 2 ^ 32 bytes, `buildMerkleProof` returns
-- bytes, and a reader of protobuf's `MerkleProof` gets from them the contents of every entry, in
-- order.
pub read_merkle_proof-build_merkle_proof :
    (ops : List ProofOp)
    → All IsSized ops
    → (proof : Bytes) × (build_merkle_proof ops ≡ some proof)
      × (read_merkle_proof proof ≡ some (map (λ op. op.contents) ops))
unfolding build_merkle_proof read_merkle_proof
read_merkle_proof-build_merkle_proof ops h = (
  encoded ops,
  concat_bytes-eq-joined (merkle_parts ops),
  read_fields-encoded ops _ h (omega arith),
)
