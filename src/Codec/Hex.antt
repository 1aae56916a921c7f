-- ===== src/Codec/Hex.antt =====
-- `hexToBytes` and `bytesToHex` (frontend/server/utils/watcher.ts, scripts/iavl-key.ts).
pub mod RoundTrip
pub mod Append
use interchain_event.Common.{ℕ, List, [], ◌∷◌, ◌++◌, ◌<◌, map}
use interchain_event.Js.Text.{Text, pad_start}
use interchain_event.Js.Number.{parse_int, to_uint8, to_hex_text}

-- A `Uint8Array` is a list of numbers below 256.
abbrev pub Bytes : Type 0
Bytes = List ℕ

abbrev pub IsByte : ℕ → Type 0
IsByte b = b < 256

-- The array has `hex.length / 2` places, rounded down: the write of a last odd digit is dropped.
unfoldable pub hex_to_bytes : Text → Bytes
unfolding parse_int to_uint8
hex_to_bytes (a ∷ b ∷ hex) = to_uint8 (parse_int 16 (a ∷ b ∷ [])) ∷ hex_to_bytes hex
hex_to_bytes _ = []

-- `b.toString(16).padStart(2, "0")`
unfoldable pub byte_to_hex : ℕ → Text
unfolding to_hex_text pad_start
byte_to_hex b = pad_start 2 b'0' (to_hex_text b)

-- `map` and `join("")`.
unfoldable pub bytes_to_hex : Bytes → Text
bytes_to_hex [] = []
bytes_to_hex (b ∷ bytes) = byte_to_hex b ++ bytes_to_hex bytes
