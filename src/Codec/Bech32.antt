-- ===== src/Codec/Bech32.antt =====
-- `bech32AddrToHex` (frontend/app/composables/useStateExplorer.ts).
pub mod Regroup
use interchain_event.Common.{
  ℕ, zero, suc, ◌+◌, ◌-◌, ◌*◌, ◌/◌, ◌%◌, ◌^◌, Bool, Option, none, some, List, [], ◌∷◌, ◌++◌, leb,
  ◌==◌, length, take, drop, if◌then◌else◌,
}
use interchain_event.Js.Text.{Text, text, index_of, last_index_of}
use interchain_event.Codec.Hex.{Bytes, bytes_to_hex}

abbrev pub charset : Text
charset = text "qpzry9x8gf2tvdw0s3jn54khce6mua7l"

-- `addr.slice(sepIdx + 1, -6)`: what stands between the last `1` and the six checksum characters.
unfoldable pub address_payload : Text → Text
unfolding last_index_of
address_payload addr =
    let start : ℕ = elim (last_index_of addr b'1') [ none ↦ 0 | some i ↦ i + 1 ] in
    drop start (take (length addr - 6) addr)

-- The places of the characters in the alphabet; `none` is the thrown error.
unfoldable pub charset_values : Text → Option (List ℕ)
unfolding text index_of
charset_values [] = some []
charset_values (c ∷ s) = elim (index_of charset c) [
  | none ↦ none
  | some v ↦ elim (charset_values s) [ none ↦ none | some vs ↦ some (v ∷ vs) ]
]

-- `acc` is kept modulo 2 ^ 32: its sign never shows in the low eight bits that are read from it.
pub record Bits : Type 0 where
  pub acc : ℕ
  pub bits : ℕ
  pub bytes : Bytes

abbrev pub no_bits : Bits
no_bits = record { acc = 0; bits = 0; bytes = [] }

-- `while (bits >= 8)`: every round takes eight of the bits, so `bits` rounds are enough.
unfoldable pub take_bytes : ℕ → Bits → Bits
take_bytes zero s = s
take_bytes (suc fuel) s =
    let bits' = s.bits - 8 in
    let rest =
      take_bytes fuel
        (record s { bits = bits'; bytes = s.bytes ++ (s.acc / 2 ^ bits' % 256 ∷ []) }) in
    if leb 8 s.bits then rest else s

-- `acc = (acc << 5) | v; bits += 5` and the loop: `v` has five bits, so `|` is a sum.
unfoldable pub push_value : Bits → ℕ → Bits
unfolding take_bytes
push_value s v =
    let bits' = s.bits + 5 in
    take_bytes bits' (record s { acc = (s.acc * 32 + v) % 2 ^ 32; bits = bits' })

unfoldable pub push_values : Bits → List ℕ → Bits
unfolding push_value
push_values s [] = s
push_values s (v ∷ vs) = push_values (push_value s v) vs

unfoldable pub bech32_addr_to_hex : Text → Option Text
bech32_addr_to_hex addr = elim (charset_values (address_payload addr)) [
  | none ↦ none
  | some values ↦ some (bytes_to_hex (push_values no_bits values).bytes)
]
