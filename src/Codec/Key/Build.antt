-- ===== src/Codec/Key/Build.antt =====
-- `cwStoragePlusMapKey`, `buildAttestationIavlKey`, `toHex`, `wasmStoreKey`, `wasmStoreKeyForNsEntry`.
use interchain_event.Common.{◌/◌, ◌%◌, Option, none, some, [], ◌∷◌, ◌++◌, length}
use interchain_event.Js.Text.{Text, text, pad_start}
use interchain_event.Js.Number.{to_hex_text}
use interchain_event.Js.Utf8.{text_encode}
use interchain_event.Codec.Hex.{Bytes, hex_to_bytes, bytes_to_hex}
use interchain_event.Codec.Concat.{concat_bytes}
use interchain_event.Codec.Bech32.{bech32_addr_to_hex}

-- `textToBytes`
unfoldable pub text_to_bytes : Text → Bytes
text_to_bytes s = text_encode s

unfoldable pub cw_storage_plus_map_key : Text → Text → Option Bytes
unfolding text_to_bytes
cw_storage_plus_map_key namespace map_key =
    let ns_bytes = text_to_bytes namespace in
    let key_bytes = text_to_bytes map_key in
    let len_prefix : Bytes = (length ns_bytes / 256 % 256) ∷ (length ns_bytes % 256) ∷ [] in
    concat_bytes (len_prefix ∷ ns_bytes ∷ key_bytes ∷ [])

abbrev pub attestation_registry_addr_hex : Text
attestation_registry_addr_hex =
    text "6ddcac1383e59acf9591d7edb6f8257bf872e1bdf916ca77cbff057b658d395d"

abbrev pub attestation_registry_address : Text
attestation_registry_address =
    text "neutron1dhw2cyurukdvl9v36lkmd7p900u89cdalytv5a7tluzhkevd89wsda4wjl"

unfoldable pub build_attestation_iavl_key : Text → Option Bytes
build_attestation_iavl_key attestation_id =
    elim (cw_storage_plus_map_key (text "attestations") attestation_id) [
      | none ↦ none
      | some storage_key ↦
          concat_bytes ((0x03 ∷ []) ∷ hex_to_bytes attestation_registry_addr_hex ∷ storage_key ∷ [])
    ]

unfoldable pub to_hex : Text → Text
to_hex s = bytes_to_hex (text_encode s)

unfoldable pub wasm_store_key : Text → Text → Option Text
wasm_store_key contract_addr storage_key_hex = elim (bech32_addr_to_hex contract_addr) [
  | none ↦ none
  | some addr_hex ↦ some (text "03" ++ (addr_hex ++ storage_key_hex))
]

-- `nsHex.length / 2` is a whole number, as `to_hex` writes two digits a byte.
unfoldable pub wasm_store_key_for_ns_entry : Text → Text → Text → Option Text
wasm_store_key_for_ns_entry contract_addr namespace map_key =
    elim (bech32_addr_to_hex contract_addr) [
      | none ↦ none
      | some addr_hex ↦
          let ns_hex = to_hex namespace in
          let ns_len = pad_start 4 b'0' (to_hex_text (length ns_hex / 2)) in
          some (text "03" ++ (addr_hex ++ (ns_len ++ (ns_hex ++ to_hex map_key))))
    ]
