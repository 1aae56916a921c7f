-- ===== src/Js/Number.antt =====
-- Numbers to text and back: `toString(radix)` and `parseInt(s, 16)`.
pub mod Decimal
pub mod Shown
use mathlib.Core.WellFounded.{Acc}
use mathlib.Core.Logic.{dite}
use native.Mathlib.Decide.{dec_lt}
use interchain_event.Common.{
  ℕ, ◌+◌, ◌-◌, ◌*◌, ◌/◌, ◌%◌, ◌≤◌, ◌<◌, Bool, true, false, ◌&&◌, ◌||◌, Option, none, some, [], ◌∷◌,
  arith, ◌==◌, ltb, leb, if◌then◌else◌,
}
use interchain_event.Common.Order.{lt_wf}
use interchain_event.Js.Text.{Text}
use interchain_event.Js.Double.{to_double}

-- The digits of `toString`: 0 to 9, then lower-case letters.
unfoldable pub digit : ℕ → ℕ
digit d = if ltb d 10 then b'0' + d else b'a' + (d - 10)

pub shrink : (radix n : ℕ) → 2 ≤ radix → 0 < n / radix → n / radix < n
shrink radix n h pos = grind arith

-- The digits of `n` in front of those in `tail`.
unfoldable pub to_digits : (radix n : ℕ) → 2 ≤ radix → Acc ◌<◌ n → Text → Text
unfolding digit
to_digits radix n h (Acc.intro _ smaller) tail =
    let here = digit (n % radix) ∷ tail in
    dite (dec_lt 0 (n / radix))
      (λ more. to_digits radix (n / radix) h (smaller _ (shrink radix n h more)) here) (λ _. here)

pub two_le_sixteen : 2 ≤ 16
two_le_sixteen = omega arith

pub two_le_ten : 2 ≤ 10
two_le_ten = omega arith

unfoldable pub to_hex_text : ℕ → Text
unfolding to_digits lt_wf dec_lt
to_hex_text n = to_digits 16 n two_le_sixteen (lt_wf.apply n) []

unfoldable pub to_text : ℕ → Text
unfolding to_digits lt_wf dec_lt
to_text n = to_digits 10 n two_le_ten (lt_wf.apply n) []

-- The value of a hexadecimal digit.
unfoldable pub hex_value : ℕ → Option ℕ
hex_value c =
    if leb b'0' c && leb c b'9'
    then some (c - b'0')
    else if leb b'a' c && leb c b'f'
    then some (c - b'a' + 10)
    else if leb b'A' c && leb c b'F'
    then some (c - b'A' + 10)
    else none

-- What `parseInt` skips in front: white space and line ends.
unfoldable pub is_space : ℕ → Bool
is_space c =
    c == 9
    || c == 10
    || c == 11
    || c == 12
    || c == 13
    || c == 32
    || c == 0xa0
    || c == 0x1680
    || (leb 0x2000 c && leb c 0x200a)
    || c == 0x2028
    || c == 0x2029
    || c == 0x202f
    || c == 0x205f
    || c == 0x3000
    || c == 0xfeff

unfoldable pub skip_spaces : Text → Text
unfolding is_space
skip_spaces [] = []
skip_spaces (c ∷ s) = if is_space c then skip_spaces s else c ∷ s

-- A sign, `true` for minus, and what follows it.
unfoldable pub take_sign : Text → Bool × Text
take_sign [] = (false, [])
take_sign (c ∷ s) =
    if c == b'-' then (true, s) else if c == b'+' then (false, s) else (false, c ∷ s)

unfoldable pub skip_0x : Text → Text
skip_0x (z ∷ x ∷ s) = if z == b'0' && (x == b'x' || x == b'X') then s else z ∷ x ∷ s
skip_0x s = s

unfoldable pub digit_below : ℕ → ℕ → Option ℕ
unfolding hex_value
digit_below radix c = elim (hex_value c) [
  | none ↦ none
  | some d ↦ if ltb d radix then some d else none
]

-- The longest run of digits, `none` when there is none at all.
unfoldable pub read_digits : ℕ → Option ℕ → Text → Option ℕ
unfolding digit_below
read_digits radix acc [] = acc
read_digits radix acc (c ∷ s) = elim (digit_below radix c) [
  | none ↦ acc
  | some d ↦ read_digits radix (some (elim acc [ none ↦ d | some n ↦ n * radix + d ])) s
]

-- `parseInt(s, radix)` at radix 10 and 16: the sign and the magnitude, a double; `none` for NaN.
unfoldable pub parse_int : ℕ → Text → Option (Bool × ℕ)
unfolding skip_spaces take_sign skip_0x read_digits
parse_int radix s =
    let (minus, rest) = take_sign (skip_spaces s) in
    let body = if radix == 16 then skip_0x rest else rest in
    elim (read_digits radix none body) [ none ↦ none | some n ↦ some (minus, to_double n) ]

-- What a `Uint8Array` stores: NaN is 0, other numbers count modulo 256.
unfoldable pub to_uint8 : Option (Bool × ℕ) → ℕ
to_uint8 none = 0
to_uint8 (some (minus, n)) = if minus then (256 - n % 256) % 256 else n % 256
