-- ===== src/Codec/Key/Parse.antt =====
-- `parseWasmKeyParts` and `decodeWasmStateKey`.
use interchain_event.Common.{
  ℕ, ◌+◌, ◌-◌, ◌*◌, Bool, false, ◌&&◌, ◌||◌, Option, none, some, [], ◌∷◌, ◌++◌, length, take, drop,
  all, ltb, leb, ◌==◌, if◌then◌else◌,
}
use interchain_event.Js.Text.{Text, text}
use interchain_event.Js.Utf8.{text_decode_fatal}
use interchain_event.Codec.Hex.{Bytes, hex_to_bytes, bytes_to_hex}

abbrev pub is_printable_unit : ℕ → Bool
is_printable_unit c = leb 0x20 c && leb c 0x7e

-- `/^[\x20-\x7e]+$/.test(s)`
unfoldable pub is_printable : Text → Bool
is_printable [] = false
is_printable (c ∷ s) = all is_printable_unit (c ∷ s)

-- The two bytes in front, most significant first; 0 where the array is shorter, which no caller reads.
unfoldable pub namespace_length : Bytes → ℕ
namespace_length (a ∷ b ∷ bytes) = a * 256 + b
namespace_length _ = 0

-- A text that decodes and is printable.
unfoldable pub printable_text : Bytes → Option Text
printable_text bytes = elim (text_decode_fatal bytes) [
  | none ↦ none
  | some s ↦ if is_printable s then some s else none
]

unfoldable pub map_key_text : Bytes → Text
map_key_text key_bytes = elim (printable_text key_bytes) [
  | none ↦ text "0x" ++ bytes_to_hex key_bytes
  | some map_key ↦ map_key
]

-- The end of `parseWasmKeyParts`, once the namespace is known or refused.
unfoldable pub named_parts : Option Text → Bytes → Option (Text × Text)
named_parts none key_bytes = none
named_parts (some ns) key_bytes =
    if length key_bytes == 0 then some (ns, []) else some (ns, map_key_text key_bytes)

unfoldable pub parse_key_bytes : Bytes → Option (Text × Text)
parse_key_bytes bytes =
    let ns_len = namespace_length bytes in
    if ltb (length bytes) 2
    then none
    else if ns_len == 0 || leb (length bytes - 2) ns_len
    then none
    else named_parts (printable_text (take ns_len (drop 2 bytes))) (drop (2 + ns_len) bytes)

unfoldable pub parse_wasm_key_parts : Text → Option (Text × Text)
parse_wasm_key_parts hex = parse_key_bytes (hex_to_bytes hex)

-- The item reading, when the map reading fails.
unfoldable pub decode_item_key : Text → Bytes → Text
decode_item_key hex bytes = elim (printable_text bytes) [ none ↦ text "0x" ++ hex | some s ↦ s ]

-- What the map reading shows, `none` where it falls through to the item reading.
unfoldable pub named_key : Option Text → Bytes → Option Text
named_key none key_bytes = none
named_key (some ns) key_bytes =
    if length key_bytes == 0 then some ns else some (ns ++ (text "::" ++ map_key_text key_bytes))

unfoldable pub decode_map_key : Bytes → Option Text
decode_map_key bytes =
    let ns_len = namespace_length bytes in
    if leb 2 (length bytes) && (ltb 0 ns_len && ltb ns_len (length bytes - 2))
    then named_key (printable_text (take ns_len (drop 2 bytes))) (drop (2 + ns_len) bytes)
    else none

unfoldable pub decode_wasm_state_key : Text → Text
decode_wasm_state_key hex = elim (decode_map_key (hex_to_bytes hex)) [
  | none ↦ decode_item_key hex (hex_to_bytes hex)
  | some shown ↦ shown
]
