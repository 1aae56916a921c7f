-- ===== src/Tests/Codec.antt =====
-- Keys, proofs and addresses at concrete inputs.
use interchain_event.Common.{
  ◌<◌, ◌^◌, ◌≡◌, ◌≢◌, refl, true, none, some, List, [], ◌∷◌, arith, length, map,
}
use interchain_event.Js.Text.{Text, text, index_of, last_index_of}
use interchain_event.Js.Utf8.{text_encode, text_decode_fatal}
use interchain_event.Codec.Hex.{Bytes, hex_to_bytes, bytes_to_hex}
use interchain_event.Codec.Hex.RoundTrip.{hex_to_bytes-bytes_to_hex}
use interchain_event.Codec.Merkle.{ProofOp, build_merkle_proof, read_merkle_proof}
use interchain_event.Codec.Merkle.RoundTrip.{read_merkle_proof-build_merkle_proof}
use interchain_event.Codec.Bech32.{Bits, charset_values, address_payload, bech32_addr_to_hex}
use interchain_event.Codec.Bech32.Regroup.{spelled, Holds, bech32_addr_to_hex-Holds}
use interchain_event.Codec.Key.Build.{
  attestation_registry_addr_hex, attestation_registry_address, build_attestation_iavl_key,
  cw_storage_plus_map_key, wasm_store_key, wasm_store_key_for_ns_entry,
}
use interchain_event.Codec.Key.Parse.{is_printable, printable_text, parse_wasm_key_parts}
use interchain_event.Codec.Key.Agreement.{
  cw_storage_plus_map_key-eq, wasm_store_key_for_ns_entry-eq,
}
use interchain_event.Codec.Key.Attestation.{address_decodes, build_attestation_iavl_key-eq}
use interchain_event.Codec.Key.RoundTrip.{entry_bytes, parse_wasm_key_parts-cw_storage_plus_map_key}
use interchain_event.Codec.Key.Explorer.{binary_entry_store_key}

abbrev two_ops : List ProofOp
two_ops =
    record { kind = text "ics23:iavl"; contents = 1 ∷ 2 ∷ 3 ∷ [] }
    ∷ record { kind = text "ics23:simple"; contents = 4 ∷ [] }
    ∷ []

read_merkle_proof-build_merkle_proof_example :
    (proof : Bytes) × (build_merkle_proof two_ops ≡ some proof)
    × (read_merkle_proof proof ≡ some (map (λ op. op.contents) two_ops))
read_merkle_proof-build_merkle_proof_example =
    read_merkle_proof-build_merkle_proof two_ops (omega arith, (omega arith, tt))

abbrev ns : Text
ns = text "attestations"

abbrev entry_key : Text
entry_key = text "att-1"

ns_printable : is_printable ns ≡ true
unfolding is_printable text
ns_printable = refl

entry_key_printable : is_printable entry_key ≡ true
unfolding is_printable text
entry_key_printable = refl

ns_short : length ns < 2 ^ 16
unfolding text
ns_short = omega arith

abbrev storage_key : Bytes
storage_key = entry_bytes ns entry_key

storage_key_written : cw_storage_plus_map_key ns entry_key ≡ some storage_key
unfolding text text_encode
storage_key_written = cw_storage_plus_map_key-eq ns entry_key

hex_to_bytes-bytes_to_hex_example :
    hex_to_bytes (bytes_to_hex (0x03 ∷ 0xfe ∷ [])) ≡ 0x03 ∷ 0xfe ∷ []
hex_to_bytes-bytes_to_hex_example =
    hex_to_bytes-bytes_to_hex (0x03 ∷ 0xfe ∷ []) (omega arith, (omega arith, tt))

parse_wasm_key_parts-cw_storage_plus_map_key_example :
    parse_wasm_key_parts (bytes_to_hex storage_key) ≡ some (ns, entry_key)
parse_wasm_key_parts-cw_storage_plus_map_key_example =
    parse_wasm_key_parts-cw_storage_plus_map_key ns entry_key storage_key ns_printable
      entry_key_printable ns_short storage_key_written

build_attestation_iavl_key-eq_example :
    (key : Bytes) × (build_attestation_iavl_key entry_key ≡ some key)
    × (wasm_store_key_for_ns_entry attestation_registry_address (text "attestations") entry_key
        ≡ some (bytes_to_hex key))
build_attestation_iavl_key-eq_example = build_attestation_iavl_key-eq entry_key

wasm_store_key_for_ns_entry-eq_example :
    wasm_store_key_for_ns_entry attestation_registry_address ns entry_key
    ≡ wasm_store_key attestation_registry_address (bytes_to_hex storage_key)
unfolding text text_encode
wasm_store_key_for_ns_entry-eq_example =
    wasm_store_key_for_ns_entry-eq attestation_registry_address ns entry_key storage_key
      (omega arith) (omega arith) storage_key_written

binary_key : printable_text (0x01 ∷ []) ≡ none
unfolding printable_text is_printable text_decode_fatal
binary_key = refl

binary_entry_store_key_example :
    (map_key : Text) × (parse_wasm_key_parts (bytes_to_hex (entry_bytes ns (0x01 ∷ [])))
      ≡ some (ns, map_key))
    × (wasm_store_key_for_ns_entry attestation_registry_address ns map_key
        ≢ wasm_store_key attestation_registry_address (bytes_to_hex (entry_bytes ns (0x01 ∷ []))))
binary_entry_store_key_example =
    binary_entry_store_key attestation_registry_address attestation_registry_addr_hex ns (0x01 ∷ [])
      address_decodes ns_printable ns_short (omega arith) (omega arith) binary_key

abbrev short_address : Text
short_address = text "x1qpqqqqqqq"

bech32_addr_to_hex-Holds_example :
    (s : Bits) × (bech32_addr_to_hex short_address ≡ some (bytes_to_hex s.bytes))
    × Holds (spelled 32 0 (0 ∷ 1 ∷ 0 ∷ [])) 3 s
unfolding charset_values address_payload text last_index_of index_of
bech32_addr_to_hex-Holds_example = bech32_addr_to_hex-Holds short_address (0 ∷ 1 ∷ 0 ∷ []) refl
