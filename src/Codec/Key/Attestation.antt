-- ===== src/Codec/Key/Attestation.antt =====
-- The key of an attestation: scripts/iavl-key.ts and the explorer agree on it.
use mathlib.Core.List.{append-nil}
use interchain_event.Common.{◌/◌, ◌%◌, ◌^◌, ◌<◌, ◌≡◌, refl, ◌∙◌, some, [], ◌∷◌, ◌++◌, arith, length}
use interchain_event.Js.Double.{to_double}
use interchain_event.Js.Text.{Text, text, last_index_of, index_of}
use interchain_event.Js.Utf8.{text_encode}
use interchain_event.Codec.Hex.{Bytes, hex_to_bytes, byte_to_hex, bytes_to_hex}
use interchain_event.Codec.Hex.Append.{bytes_to_hex-append}
use interchain_event.Codec.Concat.{joined, concat_bytes-eq-joined}
use interchain_event.Codec.Bech32.{address_payload, charset_values, push_values, bech32_addr_to_hex}
use interchain_event.Codec.Key.Build.{
  build_attestation_iavl_key, attestation_registry_addr_hex, attestation_registry_address,
  wasm_store_key, wasm_store_key_for_ns_entry,
}
use interchain_event.Codec.Key.Agreement.{
  IsUnits, cw_storage_plus_map_key-eq, wasm_store_key_for_ns_entry-eq,
}

pub address_decodes :
    bech32_addr_to_hex attestation_registry_address ≡ some attestation_registry_addr_hex
unfolding bech32_addr_to_hex address_payload charset_values push_values bytes_to_hex byte_to_hex
    text last_index_of index_of
address_decodes = refl

address_bytes :
    bytes_to_hex (hex_to_bytes attestation_registry_addr_hex) ≡ attestation_registry_addr_hex
unfolding hex_to_bytes bytes_to_hex byte_to_hex text to_double
address_bytes = refl

wasm_prefix : bytes_to_hex (0x03 ∷ []) ≡ text "03"
unfolding bytes_to_hex byte_to_hex text
wasm_prefix = refl

abbrev wasm_key : Bytes → Bytes
wasm_key storage_key =
    joined ((0x03 ∷ []) ∷ hex_to_bytes attestation_registry_addr_hex ∷ storage_key ∷ [])

wasm_key-hex :
    (storage_key : Bytes)
    → bytes_to_hex (wasm_key storage_key)
      ≡ text "03" ++ (attestation_registry_addr_hex ++ bytes_to_hex storage_key)
unfolding joined
wasm_key-hex storage_key =
    rw append-nil
      (bytes_to_hex-append (0x03 ∷ []) _ ∙ rw (wasm_prefix, bytes_to_hex-append, address_bytes))

wasm_store_key-wasm_key :
    (storage_key : Bytes)
    → wasm_store_key attestation_registry_address (bytes_to_hex storage_key)
      ≡ some (bytes_to_hex (wasm_key storage_key))
unfolding wasm_store_key text
wasm_store_key-wasm_key storage_key = rw (wasm_key-hex, address_decodes, wasm_store_key)

abbrev namespace_bytes : Bytes
namespace_bytes = text_encode (text "attestations")

abbrev attestation_storage_key : Text → Bytes
attestation_storage_key id =
    (length namespace_bytes / 256 % 256)
    ∷ (length namespace_bytes % 256)
    ∷ (namespace_bytes ++ text_encode id)

namespace_short : length namespace_bytes < 2 ^ 16
unfolding text text_encode
namespace_short = omega arith

namespace_IsUnits : IsUnits (text "attestations")
unfolding text
namespace_IsUnits = omega arith

build_attestation_iavl_key-wasm_key :
    (id : Text) → build_attestation_iavl_key id ≡ some (wasm_key (attestation_storage_key id))
unfolding build_attestation_iavl_key
build_attestation_iavl_key-wasm_key id = ground (
  arith,
  cw_storage_plus_map_key-eq (text "attestations") id,
  concat_bytes-eq-joined
      ((0x03 ∷ []) ∷ hex_to_bytes attestation_registry_addr_hex ∷ attestation_storage_key id ∷ []),
)

-- For every attestation id, `buildAttestationIavlKey` returns a key, and its hex is what the
-- explorer's `wasmStoreKeyForNsEntry` makes of the deployed registry's address, the namespace
-- `attestations` and the id.
pub build_attestation_iavl_key-eq :
    (id : Text)
    → (key : Bytes) × (build_attestation_iavl_key id ≡ some key)
      × (wasm_store_key_for_ns_entry attestation_registry_address (text "attestations") id
          ≡ some (bytes_to_hex key))
build_attestation_iavl_key-eq id =
    let storage_key : Bytes = attestation_storage_key id in
    (
      wasm_key storage_key,
      build_attestation_iavl_key-wasm_key id,
      wasm_store_key_for_ns_entry-eq attestation_registry_address (text "attestations") id
            storage_key namespace_IsUnits namespace_short
            (cw_storage_plus_map_key-eq (text "attestations") id)
          ∙ wasm_store_key-wasm_key storage_key,
    )
