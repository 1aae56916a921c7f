-- ===== src/Codec/Key/Agreement.antt =====
-- The three writers of storage keys write the same key.
use mathlib.Core.List.{append-nil}
use interchain_event.Common.{
  ℕ, zero, suc, ◌-◌, ◌≤◌, replicate, ◌+◌, ◌/◌, ◌%◌, ◌^◌, ◌<◌, ◌≡◌, refl, ap, ◌∙◌, sym, some, List,
  [], ◌∷◌, ◌++◌, arith, length, All, All-append,
}
use mathlib.Core.WellFounded.{Acc}
use mathlib.Core.Logic.{dif_pos}
use native.Mathlib.Decide.{dec_lt}
use native.Mathlib.Bridge.{le_prop}
use interchain_event.Common.Order.{lt_wf}
use interchain_event.Js.Text.{Text, pad_start}
use interchain_event.Js.Number.{two_le_sixteen, to_hex_text, to_digits, shrink, digit}
use interchain_event.Js.Utf8.{text_encode, utf8_bytes, encode_points, code_points}
use interchain_event.Codec.Hex.{Bytes, IsByte, bytes_to_hex}
use interchain_event.Codec.Hex.RoundTrip.{byte_to_hex-eq-digits}
use interchain_event.Codec.Hex.Append.{bytes_to_hex-append, length-bytes_to_hex}
use interchain_event.Codec.Concat.{joined, concat_bytes-eq-joined}
use interchain_event.Codec.Key.Build.{
  text_to_bytes, cw_storage_plus_map_key, to_hex, wasm_store_key, wasm_store_key_for_ns_entry,
}

-- Units below 2 ^ 16.
abbrev pub IsUnits : Text → Type 0
IsUnits s = All (λ c. c < 2 ^ 16) s

encode_points-IsByte : (ps : List ℕ) → All (λ p. p < 0x110000) ps → All IsByte (encode_points ps)
unfolding encode_points utf8_bytes
encode_points-IsByte [] h = tt
encode_points-IsByte (p ∷ ps) (hp, h) =
    All-append IsByte (utf8_bytes p) (encode_points ps) (ground arith) (encode_points-IsByte ps h)

code_points-lt : (s : Text) → IsUnits s → All (λ p. p < 0x110000) (code_points s)
unfolding code_points
code_points-lt [] h = tt
code_points-lt (c ∷ []) h = ground arith
code_points-lt (c ∷ d ∷ s) (hc, (hd, h)) =
    ground (arith, code_points-lt s h, code_points-lt (d ∷ s) (hd, h))

pub text_encode-IsByte : (s : Text) → IsUnits s → All IsByte (text_encode s)
unfolding text_encode
text_encode-IsByte s h = encode_points-IsByte (code_points s) (code_points-lt s h)

-- The digits of `n` in `k` places, in front of `tail`.
fixed : ℕ → ℕ → Text → Text
fixed zero n tail = tail
fixed (suc k) n tail = fixed k (n / 16) (digit (n % 16) ∷ tail)

replicate-cons : (k c : ℕ) (s : Text) → replicate k c ++ (c ∷ s) ≡ c ∷ (replicate k c ++ s)
replicate-cons zero c s = refl
replicate-cons (suc k) c s = ap (λ (t : Text). c ∷ t) (replicate-cons k c s)

fixed-zero : (k : ℕ) (tail : Text) → fixed k 0 tail ≡ replicate k b'0' ++ tail
unfolding fixed digit
fixed-zero zero tail = refl
fixed-zero (suc k) tail = fixed-zero k (b'0' ∷ tail) ∙ replicate-cons k b'0' tail

digits_done :
    (k n : ℕ) (tail : Text)
    → ¬ (0 < n / 16)
    → pad_start (suc k + length tail) b'0' (digit (n % 16) ∷ tail) ≡ fixed (suc k) n tail
unfolding pad_start fixed
digits_done k n tail done =
    let none_left : n / 16 ≡ 0 = omega arith in
    let width : suc k + length tail - suc (length tail) ≡ k = omega arith in
    rw (none_left, width) (sym (fixed-zero k (digit (n % 16) ∷ tail)))

to_digits-fixed :
    (k n : ℕ) (radix : 2 ≤ 16) (w : Acc ◌<◌ n) (tail : Text)
    → n < 16 ^ suc k
    → pad_start (suc k + length tail) b'0' (to_digits 16 n radix w tail) ≡ fixed (suc k) n tail
unfolding to_digits fixed
to_digits-fixed zero n radix (Acc.intro _ smaller) tail h =
    let last : ¬ (0 < n / 16) = omega arith in grind (arith, digits_done zero n tail last)
to_digits-fixed (suc k) n radix (Acc.intro _ smaller) tail h = elim (dec_lt 0 (n / 16)) [
  | no done ↦ grind (arith, digits_done (suc k) n tail done)
  | yes more ↦
      let here : Text = digit (n % 16) ∷ tail in
      let width : suc (suc k) + length tail ≡ suc k + length here = omega arith in
      rw (dif_pos _ le_prop more, width)
        (to_digits-fixed k (n / 16) radix (smaller _ (shrink 16 n radix more)) here (omega arith))
]

-- A length below 2 ^ 16 in four digits is the length in two bytes.
length_prefix-eq :
    (n : ℕ)
    → n < 2 ^ 16
    → pad_start 4 b'0' (to_hex_text n) ≡ bytes_to_hex (n / 256 % 256 ∷ n % 256 ∷ [])
unfolding to_hex_text fixed bytes_to_hex
length_prefix-eq n h =
    let e : n / 16 / 16 / 16 % 16 ≡ n / 256 % 256 / 16 = omega arith in
    let f : n / 16 / 16 % 16 ≡ n / 256 % 256 % 16 = omega arith in
    let g : n / 16 % 16 ≡ n % 256 / 16 = omega arith in
    let k : n % 16 ≡ n % 256 % 16 = omega arith in
    to_digits-fixed 3 n two_le_sixteen (lt_wf.apply n) [] (omega arith)
    ∙ ground (
      arith,
      e,
      f,
      g,
      k,
      ap digit e,
      ap digit f,
      ap digit g,
      ap digit k,
      byte_to_hex-eq-digits (n / 256 % 256),
      byte_to_hex-eq-digits (n % 256),
    )

-- The storage key that `cwStoragePlusMapKey` writes, as bytes one after the other.
pub cw_storage_plus_map_key-eq :
    (ns key : Text)
    → cw_storage_plus_map_key ns key
      ≡ some (
          (length (text_encode ns) / 256 % 256)
          ∷ (length (text_encode ns) % 256)
          ∷ (text_encode ns ++ text_encode key))
unfolding cw_storage_plus_map_key text_to_bytes
cw_storage_plus_map_key-eq ns key = rw concat_bytes-eq-joined (unfold joined in rw append-nil)

half_length-to_hex : (s : Text) → IsUnits s → length (to_hex s) / 2 ≡ length (text_encode s)
unfolding to_hex
half_length-to_hex s h = omega (arith, length-bytes_to_hex (text_encode s) (text_encode-IsByte s h))

entry_suffix-eq :
    (ns key : Text)
    → IsUnits ns
    → length (text_encode ns) < 2 ^ 16
    → pad_start 4 b'0' (to_hex_text (length (to_hex ns) / 2)) ++ (to_hex ns ++ to_hex key)
      ≡ bytes_to_hex (
          (length (text_encode ns) / 256 % 256)
          ∷ (length (text_encode ns) % 256)
          ∷ (text_encode ns ++ text_encode key))
entry_suffix-eq ns key units short =
    let n : ℕ = length (text_encode ns) in
    rw (half_length-to_hex ns units, length_prefix-eq _ short)
      (unfold to_hex in
        rw (← bytes_to_hex-append (text_encode ns) (text_encode key)) (
          sym (
            bytes_to_hex-append (n / 256 % 256 ∷ n % 256 ∷ [])
              (text_encode ns ++ text_encode key))))

-- For every address, every map key and every namespace of 16-bit units whose UTF-8 form is shorter
-- than 2 ^ 16 bytes, `wasmStoreKeyForNsEntry` returns what `wasmStoreKey` makes of the address and
-- the hex of the key that `cwStoragePlusMapKey` writes; where the address does not decode, both
-- throw.
pub wasm_store_key_for_ns_entry-eq :
    (addr ns key : Text) (storage_key : Bytes)
    → IsUnits ns
    → length (text_encode ns) < 2 ^ 16
    → cw_storage_plus_map_key ns key ≡ some storage_key
    → wasm_store_key_for_ns_entry addr ns key ≡ wasm_store_key addr (bytes_to_hex storage_key)
unfolding wasm_store_key_for_ns_entry wasm_store_key
wasm_store_key_for_ns_entry-eq addr ns key storage_key units short e =
    ground (arith, cw_storage_plus_map_key-eq ns key, entry_suffix-eq ns key units short)
