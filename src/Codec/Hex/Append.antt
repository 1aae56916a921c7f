-- ===== src/Codec/Hex/Append.antt =====
-- Hex text of joined bytes, and its length.
use mathlib.Core.List.{append_assoc}
use interchain_event.Common.{ℕ, ◌*◌, ◌≡◌, refl, [], ◌∷◌, ◌++◌, arith, length, length-append, All}
use interchain_event.Codec.Hex.{Bytes, IsByte, bytes_to_hex, byte_to_hex}
use interchain_event.Codec.Hex.RoundTrip.{byte_to_hex-eq-digits}

pub bytes_to_hex-append :
    (xs ys : Bytes) → bytes_to_hex (xs ++ ys) ≡ bytes_to_hex xs ++ bytes_to_hex ys
unfolding bytes_to_hex
bytes_to_hex-append [] ys = refl
bytes_to_hex-append (x ∷ xs) ys = rw (bytes_to_hex-append xs ys, append_assoc)

length-byte_to_hex : (b : ℕ) → IsByte b → length (byte_to_hex b) ≡ 2
length-byte_to_hex b h = rw (byte_to_hex-eq-digits b h)

pub length-bytes_to_hex :
    (bytes : Bytes) → All IsByte bytes → length (bytes_to_hex bytes) ≡ 2 * length bytes
unfolding bytes_to_hex
length-bytes_to_hex [] h = omega arith
length-bytes_to_hex (b ∷ bytes) (hb, h) = omega (
  arith,
  length-append (byte_to_hex b) (bytes_to_hex bytes),
  length-byte_to_hex b hb,
  length-bytes_to_hex bytes h,
)
