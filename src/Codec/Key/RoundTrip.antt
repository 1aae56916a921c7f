-- ===== src/Codec/Key/RoundTrip.antt =====
-- Reading a storage key back into its namespace and map key.
use interchain_event.Common.{
  suc, ◌+◌, ◌/◌, ◌%◌, ◌^◌, ◌<◌, ◌≡◌, true, some, [], ◌∷◌, ◌++◌, arith, length, take, drop, all, All,
  All-append, length-append, take-length_append, drop-length_append,
}
use interchain_event.Js.Text.{Text}
use interchain_event.Js.Utf8.Ascii.{IsAscii, text_encode-ascii, text_decode_fatal-ascii}
use interchain_event.Codec.Hex.{Bytes, IsByte, hex_to_bytes, bytes_to_hex}
use interchain_event.Codec.Hex.RoundTrip.{hex_to_bytes-bytes_to_hex}
use interchain_event.Codec.Key.Build.{cw_storage_plus_map_key}
use interchain_event.Codec.Key.Agreement.{cw_storage_plus_map_key-eq}
use interchain_event.Codec.Key.Parse.{
  is_printable_unit, is_printable, namespace_length, printable_text, map_key_text, named_parts,
  parse_key_bytes, parse_wasm_key_parts, named_key, decode_map_key,
}

all_printable-IsAscii : (s : Text) → all is_printable_unit s ≡ true → IsAscii s
all_printable-IsAscii [] h = tt
all_printable-IsAscii (c ∷ s) h = ground (arith, all_printable-IsAscii s)

pub is_printable-IsAscii : (s : Text) → is_printable s ≡ true → IsAscii s
unfolding is_printable
is_printable-IsAscii [] h = tt
is_printable-IsAscii (c ∷ s) h = all_printable-IsAscii (c ∷ s) h

pub is_printable-nonempty : (s : Text) → is_printable s ≡ true → 0 < length s
unfolding is_printable
is_printable-nonempty [] h = cc
is_printable-nonempty (c ∷ s) h = omega arith

pub IsAscii-IsByte : (s : Text) → IsAscii s → All IsByte s
IsAscii-IsByte [] h = tt
IsAscii-IsByte (c ∷ s) (hc, h) = (omega arith, IsAscii-IsByte s h)

pub printable_text-printable : (s : Text) → is_printable s ≡ true → printable_text s ≡ some s
unfolding printable_text
printable_text-printable s h = ground (arith, text_decode_fatal-ascii s (is_printable-IsAscii s h))

pub map_key_text-printable : (s : Text) → is_printable s ≡ true → map_key_text s ≡ s
unfolding map_key_text
map_key_text-printable s h = ground (arith, printable_text-printable s h)

-- The bytes of a map entry: the namespace's length, the namespace and the map key.
abbrev pub entry_bytes : Bytes → Bytes → Bytes
entry_bytes ns key = (length ns / 256 % 256) ∷ (length ns % 256) ∷ (ns ++ key)

pub entry_bytes-IsByte :
    (ns key : Bytes) → All IsByte ns → All IsByte key → All IsByte (entry_bytes ns key)
entry_bytes-IsByte ns key h k = (omega arith, (omega arith, All-append IsByte ns key h k))

pub drop-entry_bytes : (ns key : Bytes) → drop (2 + length ns) (entry_bytes ns key) ≡ key
drop-entry_bytes ns key =
    let e : 2 + length ns ≡ suc (suc (length ns)) = omega arith in rw e (drop-length_append ns key)

module _ (ns key : Bytes) (ns_bytes : All IsByte ns) (key_bytes : All IsByte key)
    (ns_some : 0 < length ns) (key_some : 0 < length key) (short : length ns < 2 ^ 16) where
  entry_bytes-read : hex_to_bytes (bytes_to_hex (entry_bytes ns key)) ≡ entry_bytes ns key
  entry_bytes-read = hex_to_bytes-bytes_to_hex _ (entry_bytes-IsByte ns key ns_bytes key_bytes)

  namespace_length-entry_bytes : namespace_length (entry_bytes ns key) ≡ length ns
  unfolding namespace_length
  namespace_length-entry_bytes = omega arith

  drop-length_entry : drop (2 + namespace_length (entry_bytes ns key)) (entry_bytes ns key) ≡ key
  drop-length_entry = rw namespace_length-entry_bytes (drop-entry_bytes ns key)

  take-length_entry : take (namespace_length (entry_bytes ns key)) (ns ++ key) ≡ ns
  take-length_entry = rw namespace_length-entry_bytes (take-length_append ns key)

  -- A map entry is read by its parts.
  pub parse_wasm_key_parts-entry :
      parse_wasm_key_parts (bytes_to_hex (entry_bytes ns key)) ≡ named_parts (printable_text ns) key
  unfolding parse_wasm_key_parts parse_key_bytes
  parse_wasm_key_parts-entry = rw entry_bytes-read (
      ground (
        arith,
        namespace_length-entry_bytes,
        take-length_entry,
        drop-length_entry,
        length-append ns key,
      ))

  pub decode_map_key-entry : decode_map_key (entry_bytes ns key) ≡ named_key (printable_text ns) key
  unfolding decode_map_key
  decode_map_key-entry = ground (
    arith,
    namespace_length-entry_bytes,
    take-length_entry,
    drop-length_entry,
    length-append ns key,
  )

module _ (ns key : Text) (storage_key : Bytes) (ns_printable : is_printable ns ≡ true)
    (key_printable : is_printable key ≡ true) (short : length ns < 2 ^ 16)
    (written : cw_storage_plus_map_key ns key ≡ some storage_key) where
  storage_key-entry_bytes : storage_key ≡ entry_bytes ns key
  storage_key-entry_bytes = ground (
    arith,
    cw_storage_plus_map_key-eq ns key,
    text_encode-ascii ns (is_printable-IsAscii ns ns_printable),
    text_encode-ascii key (is_printable-IsAscii key key_printable),
  )

  -- For a namespace of printable ASCII that is not empty and shorter than 2 ^ 16, and a map key of
  -- printable ASCII that is not empty, the explorer's `parseWasmKeyParts` reads both back from the
  -- hex of the key that the script's `cwStoragePlusMapKey` wrote.
  pub parse_wasm_key_parts-cw_storage_plus_map_key :
      parse_wasm_key_parts (bytes_to_hex storage_key) ≡ some (ns, key)
  parse_wasm_key_parts-cw_storage_plus_map_key =
      rw
        (
          storage_key-entry_bytes,
          parse_wasm_key_parts-entry ns key
              (IsAscii-IsByte ns (is_printable-IsAscii ns ns_printable))
              (IsAscii-IsByte key (is_printable-IsAscii key key_printable))
              (is_printable-nonempty ns ns_printable) (is_printable-nonempty key key_printable)
              short,
        )
        (rw (printable_text-printable ns ns_printable) (
          unfold named_parts in
          ground (
            arith,
            is_printable-nonempty key key_printable,
            map_key_text-printable key key_printable,
          )))
