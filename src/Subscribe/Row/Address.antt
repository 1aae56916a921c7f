-- ===== src/Subscribe/Row/Address.antt =====
-- The row's own decoder of addresses, against the explorer's.
use interchain_event.Common.{
  ℕ, ◌+◌, ◌<◌, ◌≡◌, refl, true, some, List, [], ◌∷◌, arith, ltb, all, map, Option-cases, inl, inr,
}
use interchain_event.Js.Text.{Text, text, index_from, index_of}
use interchain_event.Js.Utf8.Ascii.{IsAscii, code_points-ascii}
use interchain_event.Codec.Hex.{bytes_to_hex}
use interchain_event.Codec.Bech32.{
  charset, address_payload, charset_values, Bits, no_bits, push_value, push_values,
  bech32_addr_to_hex,
}
use interchain_event.Codec.Key.Build.{wasm_store_key_for_ns_entry}
use interchain_event.Subscribe.Row.{
  places, push_place, push_places, row_bech32_to_hex, row_store_key,
}

index_from-ascii :
    (c i v : ℕ) (s : Text) → all (λ x. ltb x 0x80) s ≡ true → index_from c i s ≡ some v → c < 0x80
unfolding index_from
index_from-ascii c i v [] h e = ground arith
index_from-ascii c i v (a ∷ s) h e = ground (arith, index_from-ascii c (i + 1) v s)

charset_ascii : all (λ x. ltb x 0x80) charset ≡ true
unfolding text
charset_ascii = refl

charset_place : (c v : ℕ) → index_of charset c ≡ some v → c < 0x80
unfolding index_of
charset_place c v e = index_from-ascii c 0 v charset charset_ascii e

charset_values-IsAscii :
    (s : Text) (vs : List ℕ)
    → charset_values s ≡ some vs
    → IsAscii s × (map (λ c. index_of charset c) s ≡ map some vs)
unfolding charset_values
charset_values-IsAscii [] vs e = ground arith
charset_values-IsAscii (c ∷ s) vs e = elim (Option-cases (index_of charset c)) [
  | inl bad ↦ ground arith
  | inr (v, good) ↦ elim (Option-cases (charset_values s)) [
    | inl bad ↦ ground arith
    | inr (ws, read) ↦
        let (ascii, placed) = charset_values-IsAscii s ws read in
        let same : vs ≡ v ∷ ws = ground arith in ((charset_place c v good, ascii), ground arith)
  ]
]

places-charset_values :
    (s : Text) (vs : List ℕ) → charset_values s ≡ some vs → places s ≡ map some vs
unfolding places
places-charset_values s vs e =
    let (ascii, placed) = charset_values-IsAscii s vs e in rw (code_points-ascii s ascii) placed

push_places-some : (vs : List ℕ) (b : Bits) → push_places b (map some vs) ≡ push_values b vs
unfolding push_places push_place push_values push_value
push_places-some [] b = refl
push_places-some (v ∷ vs) b = push_places-some vs (push_value b v)

row_bech32_to_hex-eq :
    (addr hex : Text) → bech32_addr_to_hex addr ≡ some hex → row_bech32_to_hex addr ≡ hex
unfolding row_bech32_to_hex bech32_addr_to_hex
row_bech32_to_hex-eq addr hex e = elim (Option-cases (charset_values (address_payload addr))) [
  | inl bad ↦ ground arith
  | inr (vs, read) ↦
      let placed = places-charset_values (address_payload addr) vs read in
      let pushed = push_places-some vs no_bits in
      let written : bytes_to_hex (push_values no_bits vs).bytes ≡ hex = ground arith in
      rw (placed, pushed) written
]

pub row_store_key-eq :
    (addr ns key store_key : Text)
    → wasm_store_key_for_ns_entry addr ns key ≡ some store_key
    → row_store_key addr ns key ≡ store_key
unfolding row_store_key wasm_store_key_for_ns_entry
row_store_key-eq addr ns key store_key e = elim (Option-cases (bech32_addr_to_hex addr)) [
  | inl bad ↦ ground arith
  | inr (hex, read) ↦ let same = row_bech32_to_hex-eq addr hex read in ground arith
]
