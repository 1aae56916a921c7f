-- ===== src/Js/Utf8/Ascii.antt =====
-- On ASCII the encoder and both decoders change nothing.
use interchain_event.Common.{◌<◌, ◌≡◌, refl, some, [], ◌∷◌, map, arith, All}
use interchain_event.Js.Text.{Text}
use interchain_event.Js.Utf8.{
  code_points, encode_points, text_encode, idle, decode_points, skip_bom, replace_errors,
  refuse_errors, text_decode, text_decode_fatal,
}

abbrev pub IsAscii : Text → Type 0
IsAscii s = All (λ c. c < 0x80) s

pub code_points-ascii : (s : Text) → IsAscii s → code_points s ≡ s
unfolding code_points
code_points-ascii [] h = refl
code_points-ascii (c ∷ []) h = ground arith
code_points-ascii (c ∷ d ∷ s) (hc, h) = ground (arith, code_points-ascii (d ∷ s) h)

encode_points-ascii : (s : Text) → IsAscii s → encode_points s ≡ s
unfolding encode_points
encode_points-ascii [] h = refl
encode_points-ascii (c ∷ s) (hc, h) = ground (arith, encode_points-ascii s h)

pub text_encode-ascii : (s : Text) → IsAscii s → text_encode s ≡ s
unfolding text_encode
text_encode-ascii s h = rw (code_points-ascii s h) (encode_points-ascii s h)

decode_points-ascii : (s : Text) → IsAscii s → decode_points idle s ≡ map some s
unfolding decode_points
decode_points-ascii [] h = refl
decode_points-ascii (c ∷ s) (hc, h) = ground (arith, decode_points-ascii s h)

skip_bom-ascii : (s : Text) → IsAscii s → skip_bom s ≡ s
unfolding skip_bom
skip_bom-ascii [] h = refl
skip_bom-ascii (a ∷ []) h = refl
skip_bom-ascii (a ∷ b ∷ []) h = refl
skip_bom-ascii (a ∷ b ∷ c ∷ s) h = ground arith

replace_errors-ascii : (s : Text) → IsAscii s → replace_errors (map some s) ≡ s
unfolding replace_errors
replace_errors-ascii [] h = refl
replace_errors-ascii (c ∷ s) (hc, h) = ground (arith, replace_errors-ascii s h)

refuse_errors-ascii : (s : Text) → IsAscii s → refuse_errors (map some s) ≡ some s
unfolding refuse_errors
refuse_errors-ascii [] h = refl
refuse_errors-ascii (c ∷ s) (hc, h) = ground (arith, refuse_errors-ascii s h)

pub text_decode-ascii : (s : Text) → IsAscii s → text_decode s ≡ s
unfolding text_decode
text_decode-ascii s h =
    rw (skip_bom-ascii s h) (rw (decode_points-ascii s h) (replace_errors-ascii s h))

pub text_decode_fatal-ascii : (s : Text) → IsAscii s → text_decode_fatal s ≡ some s
unfolding text_decode_fatal
text_decode_fatal-ascii s h =
    rw (skip_bom-ascii s h) (rw (decode_points-ascii s h) (refuse_errors-ascii s h))
