-- ===== src/Codec/Key/Explorer.antt =====
-- The store key that the explorer gives an entry of a namespace folder, against the entry's own key.
use mathlib.Core.List.{append_cancel_left}
use interchain_event.Common.{
  ℕ, ◌+◌, ◌^◌, ◌<◌, ◌≡◌, ◌≢◌, ap, ◌∙◌, sym, true, none, some, [], ◌∷◌, ◌++◌, arith, length, drop,
  All, length-append, Option-cases, inl, inr,
}
use interchain_event.Js.Text.{Text, text}
use interchain_event.Js.Number.{digit}
use interchain_event.Js.Utf8.{text_encode}
use interchain_event.Js.Utf8.Ascii.{IsAscii, text_encode-ascii}
use interchain_event.Codec.Hex.{Bytes, IsByte, hex_to_bytes, bytes_to_hex}
use interchain_event.Codec.Hex.RoundTrip.{hex_to_bytes-bytes_to_hex, byte_to_hex-eq-digits}
use interchain_event.Codec.Hex.Append.{length-bytes_to_hex}
use interchain_event.Codec.Bech32.{bech32_addr_to_hex}
use interchain_event.Codec.Key.Build.{
  cw_storage_plus_map_key, wasm_store_key, wasm_store_key_for_ns_entry,
}
use interchain_event.Codec.Key.Agreement.{
  IsUnits, cw_storage_plus_map_key-eq, wasm_store_key_for_ns_entry-eq,
}
use interchain_event.Codec.Key.Parse.{
  is_printable, printable_text, map_key_text, named_parts, parse_wasm_key_parts,
}
use interchain_event.Codec.Key.RoundTrip.{
  is_printable-IsAscii, is_printable-nonempty, IsAscii-IsByte, printable_text-printable,
  entry_bytes, entry_bytes-IsByte, drop-entry_bytes, parse_wasm_key_parts-entry,
}

digit-IsAscii : (d : ℕ) → d < 16 → digit d < 0x80
unfolding digit
digit-IsAscii d h = ground arith

bytes_to_hex-IsAscii : (bytes : Bytes) → All IsByte bytes → IsAscii (bytes_to_hex bytes)
unfolding bytes_to_hex
bytes_to_hex-IsAscii [] h = tt
bytes_to_hex-IsAscii (b ∷ bytes) (hb, h) =
    rw (byte_to_hex-eq-digits b hb)
      (digit-IsAscii _ (omega arith), (digit-IsAscii _ (omega arith), bytes_to_hex-IsAscii bytes h))

-- What `printable_text` returns is printable.
printable_text-is_printable :
    (bytes : Bytes) (s : Text) → printable_text bytes ≡ some s → is_printable s ≡ true
unfolding printable_text
printable_text-is_printable bytes s e = ground arith

pub map_key_text-IsAscii : (key : Bytes) → All IsByte key → IsAscii (map_key_text key)
unfolding map_key_text text
map_key_text-IsAscii key h = elim (Option-cases (printable_text key)) [
  | inl binary ↦ rw (binary, map_key_text) (omega arith, (omega arith, bytes_to_hex-IsAscii key h))
  | inr (s, shown) ↦
      rw (shown, map_key_text) (is_printable-IsAscii s (printable_text-is_printable key s shown))
]

pub map_key_text-nonempty : (key : Bytes) → 0 < length (map_key_text key)
unfolding map_key_text text
map_key_text-nonempty key = elim (Option-cases (printable_text key)) [
  | inl binary ↦ rw (binary, map_key_text) (omega arith)
  | inr (s, shown) ↦
      rw (shown, map_key_text) (is_printable-nonempty s (printable_text-is_printable key s shown))
]

IsAscii-IsUnits : (s : Text) → IsAscii s → IsUnits s
IsAscii-IsUnits [] h = tt
IsAscii-IsUnits (c ∷ s) (hc, h) = (omega arith, IsAscii-IsUnits s h)

wasm_store_key-injective :
    (addr addr_hex x y : Text)
    → bech32_addr_to_hex addr ≡ some addr_hex
    → wasm_store_key addr x ≡ wasm_store_key addr y
    → x ≡ y
unfolding wasm_store_key
wasm_store_key-injective addr addr_hex x y decodes e =
    let same : text "03" ++ (addr_hex ++ x) ≡ text "03" ++ (addr_hex ++ y) = ground arith in
    append_cancel_left addr_hex x y (append_cancel_left (text "03") _ _ same)

bytes_to_hex-injective :
    (xs ys : Bytes) → All IsByte xs → All IsByte ys → bytes_to_hex xs ≡ bytes_to_hex ys → xs ≡ ys
bytes_to_hex-injective xs ys h k e =
    sym (hex_to_bytes-bytes_to_hex xs h) ∙ ap hex_to_bytes e ∙ hex_to_bytes-bytes_to_hex ys k

module _ (addr addr_hex ns : Text) (key : Bytes) (decodes : bech32_addr_to_hex addr ≡ some addr_hex)
    (ns_printable : is_printable ns ≡ true) (short : length ns < 2 ^ 16)
    (key_bytes : All IsByte key) where
  ns-IsAscii : IsAscii ns
  ns-IsAscii = is_printable-IsAscii ns ns_printable

  ns_encoded : text_encode ns ≡ ns
  ns_encoded = text_encode-ascii ns ns-IsAscii

  folder_key :
      cw_storage_plus_map_key ns (map_key_text key) ≡ some (entry_bytes ns (map_key_text key))
  folder_key = ground (
    arith,
    cw_storage_plus_map_key-eq ns (map_key_text key),
    ns_encoded,
    text_encode-ascii (map_key_text key) (map_key_text-IsAscii key key_bytes),
  )

  ns_short : length (text_encode ns) < 2 ^ 16
  ns_short = rw ns_encoded short

  folder_entry_key :
      wasm_store_key_for_ns_entry addr ns (map_key_text key)
      ≡ wasm_store_key addr (bytes_to_hex (entry_bytes ns (map_key_text key)))
  folder_entry_key =
      wasm_store_key_for_ns_entry-eq addr ns (map_key_text key) _ (IsAscii-IsUnits ns ns-IsAscii)
        ns_short folder_key

  keys_differ_unless :
      wasm_store_key_for_ns_entry addr ns (map_key_text key)
        ≡ wasm_store_key addr (bytes_to_hex (entry_bytes ns key))
      → map_key_text key ≡ key
  keys_differ_unless e =
      let mk = map_key_text key in
      let mk_bytes : All IsByte mk = IsAscii-IsByte mk (map_key_text-IsAscii key key_bytes) in
      let ns_bytes : All IsByte ns = IsAscii-IsByte ns ns-IsAscii in
      let same : entry_bytes ns mk ≡ entry_bytes ns key =
        bytes_to_hex-injective _ _ (entry_bytes-IsByte ns mk ns_bytes mk_bytes)
          (entry_bytes-IsByte ns key ns_bytes key_bytes)
          (wasm_store_key-injective addr addr_hex _ _ decodes (sym folder_entry_key ∙ e)) in
      sym (drop-entry_bytes ns mk) ∙ ap (drop (2 + length ns)) same ∙ drop-entry_bytes ns key

  binary_text : printable_text key ≡ none → map_key_text key ≢ key
  unfolding map_key_text text
  binary_text binary e =
      let shown : text "0x" ++ bytes_to_hex key ≡ key = rw (binary, map_key_text) at e in
      omega (
        arith,
        ap length shown,
        length-append (text "0x") (bytes_to_hex key),
        length-bytes_to_hex key key_bytes,
      )

  -- For an address that decodes, a namespace of printable ASCII that is not empty and shorter than
  -- 2 ^ 16, and a map key of bytes that is not empty and no printable text, `parseWasmKeyParts`
  -- reads the entry's key as the namespace and some text, and the store key that
  -- `wasmStoreKeyForNsEntry` makes of the two is not the entry's.
  pub binary_entry_store_key :
      0 < length key
      → printable_text key ≡ none
      → (map_key : Text) × (parse_wasm_key_parts (bytes_to_hex (entry_bytes ns key))
          ≡ some (ns, map_key))
        × (wasm_store_key_for_ns_entry addr ns map_key
            ≢ wasm_store_key addr (bytes_to_hex (entry_bytes ns key)))
  binary_entry_store_key key_some binary = (
    map_key_text key,
    parse_wasm_key_parts-entry ns key (IsAscii-IsByte ns ns-IsAscii) key_bytes
          (is_printable-nonempty ns ns_printable) key_some short
        ∙ rw (printable_text-printable ns ns_printable) (unfold named_parts in ground arith),
    λ e. binary_text binary (keys_differ_unless e),
  )
