-- ===== src/Contract/Compare.antt =====
-- `compare_values` and `parse_u128` of contracts/interchain-events/src/contract.rs.
use interchain_event.Common.{
  ℕ, ◌+◌, ◌-◌, ◌*◌, ◌^◌, Bool, true, ◌&&◌, ◌||◌, Option, none, some, List, [], ◌∷◌, ◌==◌, ltb, leb,
  if◌then◌else◌,
}
use interchain_event.Js.Utf8.{idle, decode_points}
use interchain_event.Codec.Hex.{Bytes}
use interchain_event.Contract.Types.{
  ValueEncoding, bytes, string, numeric, value_decode_error, Result, ok, err, ◌>>=◌,
}

pub data Ordering : Type 0 where
  less equal greater : Ordering

unfoldable pub compare_numbers : ℕ → ℕ → Ordering
compare_numbers a b = if ltb a b then less else if a == b then equal else greater

-- `cmp` of slices.
unfoldable pub compare_bytes : Bytes → Bytes → Ordering
compare_bytes [] [] = equal
compare_bytes [] (b ∷ bs) = less
compare_bytes (a ∷ as') [] = greater
compare_bytes (a ∷ as') (b ∷ bs) =
    let rest = compare_bytes as' bs in if a == b then rest else compare_numbers a b

unfoldable pub all_points : List (Option ℕ) → Option (List ℕ)
all_points [] = some []
all_points (none ∷ ps) = none
all_points (some p ∷ ps) = elim (all_points ps) [ none ↦ none | some rest ↦ some (p ∷ rest) ]

-- `core::str::from_utf8`: the text's code points.
unfoldable pub from_utf8 : Bytes → Result (List ℕ)
unfolding all_points
from_utf8 b = elim (all_points (decode_points idle b)) [
  | none ↦ err value_decode_error
  | some ps ↦ ok ps
]

-- `char::is_whitespace`
unfoldable pub is_whitespace : ℕ → Bool
is_whitespace c =
    (leb 9 c && leb c 13)
    || c == 32
    || c == 0x85
    || c == 0xa0
    || c == 0x1680
    || (leb 0x2000 c && leb c 0x200a)
    || c == 0x2028
    || c == 0x2029
    || c == 0x202f
    || c == 0x205f
    || c == 0x3000

unfoldable pub trim_start : (ℕ → Bool) → List ℕ → List ℕ
trim_start p [] = []
trim_start p (c ∷ s) = let rest = trim_start p s in if p c then rest else c ∷ s

unfoldable pub is_blank_text : (ℕ → Bool) → List ℕ → Bool
is_blank_text p [] = true
is_blank_text p (c ∷ s) = p c && is_blank_text p s

unfoldable pub trim_end : (ℕ → Bool) → List ℕ → List ℕ
unfolding is_blank_text
trim_end p [] = []
trim_end p (c ∷ s) = let rest = trim_end p s in if is_blank_text p (c ∷ s) then [] else c ∷ rest

-- `s.trim().trim_matches('"')`
unfoldable pub trimmed : List ℕ → List ℕ
unfolding trim_start trim_end is_whitespace
trimmed s =
    let bare = trim_end is_whitespace (trim_start is_whitespace s) in
    trim_end (λ c. c == b'"') (trim_start (λ c. c == b'"') bare)

-- The digits behind `n`; beyond the type's range it is an error.
unfoldable pub parse_u128_digits : ℕ → List ℕ → Option ℕ
parse_u128_digits n [] = some n
parse_u128_digits n (c ∷ s) =
    let next = n * 10 + (c - b'0') in
    let rest = parse_u128_digits next s in
    if leb b'0' c && leb c b'9' && ltb next (2 ^ 128) then rest else none

-- `parse::<u128>`: a plus sign may stand in front, and there is a digit.
unfoldable pub parse_decimal : List ℕ → Option ℕ
unfolding parse_u128_digits
parse_decimal [] = none
parse_decimal (c ∷ []) = if c == b'+' then none else parse_u128_digits 0 (c ∷ [])
parse_decimal (c ∷ d ∷ s) =
    if c == b'+' then parse_u128_digits 0 (d ∷ s) else parse_u128_digits 0 (c ∷ d ∷ s)

unfoldable pub parse_u128 : Bytes → Result ℕ
unfolding from_utf8 trimmed parse_decimal
parse_u128 b = do
  s ← from_utf8 b
  elim (parse_decimal (trimmed s)) [ none ↦ err value_decode_error | some n ↦ ok n ]

-- The order of valid UTF-8 texts is that of their bytes.
unfoldable pub compare_values : Bytes → Bytes → ValueEncoding → Result Ordering
unfolding compare_bytes compare_numbers parse_u128
compare_values actual threshold bytes = ok (compare_bytes actual threshold)
compare_values actual threshold string = do
  a ← from_utf8 actual
  b ← from_utf8 threshold
  ok (compare_bytes actual threshold)
compare_values actual threshold numeric = do
  a ← parse_u128 actual
  b ← parse_u128 threshold
  ok (compare_numbers a b)
