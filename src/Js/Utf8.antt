-- ===== src/Js/Utf8.antt =====
-- `TextEncoder` and `TextDecoder` (the Encoding Standard's UTF-8), between texts and bytes.
pub mod Ascii
use interchain_event.Common.{
  ℕ, zero, suc, ◌+◌, ◌-◌, ◌*◌, ◌/◌, ◌%◌, Bool, true, false, ◌&&◌, Option, none, some, List, [], ◌∷◌,
  ◌++◌, ltb, leb, ◌==◌, if◌then◌else◌,
}
use interchain_event.Js.Text.{Text}

unfoldable pub is_high : ℕ → Bool
is_high c = leb 0xd800 c && leb c 0xdbff

unfoldable pub is_low : ℕ → Bool
is_low c = leb 0xdc00 c && leb c 0xdfff

-- A lone surrogate is read as U+FFFD.
unfoldable pub scalar : ℕ → ℕ
scalar c = if leb 0xd800 c && leb c 0xdfff then 0xfffd else c

unfoldable pub code_points : Text → List ℕ
unfolding is_high is_low scalar
code_points [] = []
code_points (c ∷ []) = scalar c ∷ []
code_points (c ∷ d ∷ s) =
    let paired = code_points s in
    let single = code_points (d ∷ s) in
    if is_high c && is_low d
    then (0x10000 + (c - 0xd800) * 1024 + (d - 0xdc00)) ∷ paired
    else scalar c ∷ single

unfoldable pub utf8_bytes : ℕ → List ℕ
utf8_bytes p =
    if ltb p 0x80
    then p ∷ []
    else if ltb p 0x800
    then (0xc0 + p / 64) ∷ (0x80 + p % 64) ∷ []
    else if ltb p 0x10000
    then (0xe0 + p / 4096) ∷ (0x80 + p / 64 % 64) ∷ (0x80 + p % 64) ∷ []
    else (0xf0 + p / 262144) ∷ (0x80 + p / 4096 % 64) ∷ (0x80 + p / 64 % 64) ∷ (0x80 + p % 64) ∷ []

unfoldable pub encode_points : List ℕ → List ℕ
unfolding utf8_bytes
encode_points [] = []
encode_points (p ∷ ps) = utf8_bytes p ++ encode_points ps

-- `new TextEncoder().encode(s)`
unfoldable pub text_encode : Text → List ℕ
unfolding code_points encode_points
text_encode s = encode_points (code_points s)

-- The decoder's memory: how many bytes are still needed, the code point so far, and the range that
-- the next byte must lie in.
pub record Pending : Type 0 where
  pub needed : ℕ
  pub point : ℕ
  pub lower : ℕ
  pub upper : ℕ

abbrev pub idle : Pending
idle = record { needed = 0; point = 0; lower = 0x80; upper = 0xbf }

-- A byte where a code point begins: what is put out (`none` is an error), and the next memory.
unfoldable pub lead : ℕ → List (Option ℕ) × Pending
lead b =
    if ltb b 0x80
    then (some b ∷ [], idle)
    else if leb 0xc2 b && leb b 0xdf
    then ([], record { needed = 1; point = b % 32; lower = 0x80; upper = 0xbf })
    else if leb 0xe0 b && leb b 0xef
    then (
      [],
      record {
        needed = 2;
        point = b % 16;
        lower = if b == 0xe0 then 0xa0 else 0x80;
        upper = if b == 0xed then 0x9f else 0xbf;
      },
    )
    else if leb 0xf0 b && leb b 0xf4
    then (
      [],
      record {
        needed = 3;
        point = b % 8;
        lower = if b == 0xf0 then 0x90 else 0x80;
        upper = if b == 0xf4 then 0x8f else 0xbf;
      },
    )
    else (none ∷ [], idle)

-- A byte inside a code point. One that does not fit is an error, and is read again as a first byte.
unfoldable pub continue : Pending → ℕ → List (Option ℕ) × Pending
unfolding lead
continue p b =
    let point' = p.point * 64 + b % 64 in
    if leb p.lower b && leb b p.upper
    then if p.needed == 1
      then (some point' ∷ [], idle)
      else ([], record { needed = p.needed - 1; point = point'; lower = 0x80; upper = 0xbf })
    else (none ∷ (lead b).0, (lead b).1)

unfoldable pub decode_step : Pending → ℕ → List (Option ℕ) × Pending
unfolding lead continue
decode_step p b = if p.needed == 0 then lead b else continue p b

unfoldable pub decode_points : Pending → List ℕ → List (Option ℕ)
unfolding decode_step
decode_points p [] = if p.needed == 0 then [] else none ∷ []
decode_points p (b ∷ bytes) = let (out, p') = decode_step p b in out ++ decode_points p' bytes

-- A byte order mark in front is dropped.
unfoldable pub skip_bom : List ℕ → List ℕ
skip_bom (a ∷ b ∷ c ∷ bytes) =
    if a == 0xef && b == 0xbb && c == 0xbf then bytes else a ∷ b ∷ c ∷ bytes
skip_bom bytes = bytes

unfoldable pub code_units : ℕ → Text
code_units p =
    if ltb p 0x10000
    then p ∷ []
    else (0xd800 + (p - 0x10000) / 1024) ∷ (0xdc00 + (p - 0x10000) % 1024) ∷ []

unfoldable pub replace_errors : List (Option ℕ) → Text
unfolding code_units
replace_errors [] = []
replace_errors (none ∷ ps) = 0xfffd ∷ replace_errors ps
replace_errors (some p ∷ ps) = code_units p ++ replace_errors ps

unfoldable pub refuse_errors : List (Option ℕ) → Option Text
unfolding code_units
refuse_errors [] = some []
refuse_errors (none ∷ ps) = none
refuse_errors (some p ∷ ps) = elim (refuse_errors ps) [
  | none ↦ none
  | some s ↦ some (code_units p ++ s)
]

-- `new TextDecoder().decode(bytes)`
unfoldable pub text_decode : List ℕ → Text
unfolding decode_points skip_bom replace_errors
text_decode bytes = replace_errors (decode_points idle (skip_bom bytes))

-- `new TextDecoder("utf-8", { fatal: true }).decode(bytes)`: `none` is the TypeError.
unfoldable pub text_decode_fatal : List ℕ → Option Text
unfolding decode_points skip_bom refuse_errors
text_decode_fatal bytes = refuse_errors (decode_points idle (skip_bom bytes))
