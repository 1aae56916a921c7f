-- ===== src/Codec/Hex/RoundTrip.antt =====
-- Hex text and bytes determine one another.
use interchain_event.Common.{ℕ, ◌/◌, ◌%◌, ◌≡◌, refl, ap, [], ◌∷◌, ◌++◌, All, ◌==◌, ==_iff, ◌∙◌}
use interchain_event.Common.Table.{all_below, all_below→holds}
use interchain_event.Js.Text.{Text, text_eq, text_eq→eq}
use interchain_event.Js.Number.{digit, parse_int, to_uint8}
use interchain_event.Js.Double.{to_double}
use interchain_event.Codec.Hex.{Bytes, IsByte, hex_to_bytes, byte_to_hex, bytes_to_hex}

-- The two digits of a byte.
pub byte_to_hex-eq-digits :
    (b : ℕ) → IsByte b → byte_to_hex b ≡ digit (b / 16) ∷ digit (b % 16) ∷ []
unfolding byte_to_hex digit
byte_to_hex-eq-digits b h = text_eq→eq _ _ (
    all_below→holds 256 (λ x. text_eq (byte_to_hex x) (digit (x / 16) ∷ digit (x % 16) ∷ [])) b
      (unfold all_below text_eq in refl) h)

pub parse_digits :
    (b : ℕ) → IsByte b → to_uint8 (parse_int 16 (digit (b / 16) ∷ digit (b % 16) ∷ [])) ≡ b
unfolding parse_int to_uint8 digit to_double
parse_digits b h = (==_iff _ _).0 (
    all_below→holds 256 (λ x. to_uint8 (parse_int 16 (digit (x / 16) ∷ digit (x % 16) ∷ [])) == x) b
      (unfold all_below in refl) h)

pub hex_to_bytes-byte :
    (b : ℕ) (hex : Text) → IsByte b → hex_to_bytes (byte_to_hex b ++ hex) ≡ b ∷ hex_to_bytes hex
hex_to_bytes-byte b hex h =
    rw (byte_to_hex-eq-digits b h)
      (unfold hex_to_bytes in ap (λ (x : ℕ). x ∷ hex_to_bytes hex) (parse_digits b h))

-- `hexToBytes` reads back whatever bytes `bytesToHex` wrote.
pub hex_to_bytes-bytes_to_hex :
    (bytes : Bytes) → All IsByte bytes → hex_to_bytes (bytes_to_hex bytes) ≡ bytes
unfolding bytes_to_hex
hex_to_bytes-bytes_to_hex [] h = unfold hex_to_bytes in refl
hex_to_bytes-bytes_to_hex (b ∷ bytes) (hb, h) =
    hex_to_bytes-byte b (bytes_to_hex bytes) hb
    ∙ ap (λ (t : Bytes). b ∷ t) (hex_to_bytes-bytes_to_hex bytes h)
