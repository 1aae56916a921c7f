-- ===== src/Js/Number/Decimal.antt =====
-- `parseInt(s, 10)` reads what `toString` wrote, below 2 ^ 53.
use mathlib.Core.WellFounded.{Acc}
use mathlib.Core.Logic.{dif_pos, dif_neg}
use native.Mathlib.Decide.{dec_lt}
use native.Mathlib.Bridge.{le_prop}
use interchain_event.Common.{
  ℕ, ◌+◌, ◌*◌, ◌/◌, ◌%◌, ◌≤◌, ◌<◌, ◌≡◌, refl, ap, ◌∙◌, Bool, true, false, Option, none, some, [],
  ◌∷◌, not, ◌&&◌, ◌||◌, arith, ltb, ◌^◌, ◌==◌, ==_iff,
}
use interchain_event.Common.Order.{lt_wf}
use interchain_event.Common.Table.{all_below, all_below→holds}
use interchain_event.Js.Text.{Text}
use interchain_event.Js.Double.{to_double_exact}
use interchain_event.Js.Number.{
  is_space, digit, shrink, to_digits, two_le_ten, to_text, skip_spaces, take_sign, digit_below,
  read_digits, parse_int,
}

abbrev is_some_of : ℕ → Option ℕ → Bool
is_some_of d none = false
is_some_of d (some e) = e == d

is_some_of→eq : (d : ℕ) (o : Option ℕ) → is_some_of d o ≡ true → o ≡ some d
is_some_of→eq d none h = ground arith
is_some_of→eq d (some e) h = ground (arith, ==_iff e d)

digit_below-digit : (d : ℕ) → d < 10 → digit_below 10 (digit d) ≡ some d
unfolding digit_below digit
digit_below-digit d h = is_some_of→eq d _ (
    all_below→holds 10 (λ x. is_some_of x (digit_below 10 (digit x))) d (unfold all_below in refl)
      h)

read_digits-digit :
    (acc : Option ℕ) (d : ℕ) (tail : Text)
    → d < 10
    → read_digits 10 acc (digit d ∷ tail)
      ≡ read_digits 10 (some (elim acc [ none ↦ d | some n ↦ n * 10 + d ])) tail
unfolding read_digits
read_digits-digit acc d tail h = rw (read_digits, digit_below-digit d h) refl

read_digits-to_digits :
    (n : ℕ) (h : 2 ≤ 10) (w : Acc ◌<◌ n) (tail : Text)
    → read_digits 10 none (to_digits 10 n h w tail) ≡ read_digits 10 (some n) tail
unfolding to_digits
read_digits-to_digits n h (Acc.intro _ smaller) tail = elim (dec_lt 0 (n / 10)) [
  | yes more ↦
      let here : Text = digit (n % 10) ∷ tail in
      let whole : n / 10 * 10 + n % 10 ≡ n = omega arith in
      rw (dif_pos _ le_prop more) (
        read_digits-to_digits (n / 10) h (smaller _ (shrink 10 n h more)) here
        ∙ read_digits-digit (some (n / 10)) (n % 10) tail (omega arith)
        ∙ ap (λ (x : ℕ). read_digits 10 (some x) tail) whole)
  | no small ↦
      let whole : n % 10 ≡ n = omega arith in
      rw (dif_neg _ small) (
        read_digits-digit none (n % 10) tail (omega arith)
        ∙ ap (λ (x : ℕ). read_digits 10 (some x) tail) whole)
]

-- The text starts with a digit.
to_digits_head :
    (n : ℕ) (h : 2 ≤ 10) (w : Acc ◌<◌ n) (tail : Text)
    → (d : ℕ) × (rest : Text) × (d < 10) × (to_digits 10 n h w tail ≡ digit d ∷ rest)
unfolding to_digits
to_digits_head n h (Acc.intro _ smaller) tail = elim (dec_lt 0 (n / 10)) [
  | yes more ↦
      let (d, rest, low, e) =
        to_digits_head (n / 10) h (smaller _ (shrink 10 n h more)) (digit (n % 10) ∷ tail) in
      (d, rest, low, rw (dif_pos _ le_prop more) e)
  | no small ↦ (n % 10, tail, omega arith, rw (dif_neg _ small) refl)
]

is_plain : ℕ → Bool
is_plain c = not (is_space c) && not (c == b'-' || c == b'+')

plain_head :
    (d : ℕ) (rest : Text)
    → d < 10
    → take_sign (skip_spaces (digit d ∷ rest)) ≡ (false, digit d ∷ rest)
unfolding is_plain
plain_head d rest h =
    let plain =
      all_below→holds 10 (λ x. is_plain (digit x)) d
        (unfold all_below is_plain is_space digit in refl) h in
    let here : skip_spaces (digit d ∷ rest) ≡ digit d ∷ rest =
      unfold skip_spaces in ground (arith, plain) in
    rw here (unfold take_sign in ground (arith, plain))

signless : (n : ℕ) → take_sign (skip_spaces (to_text n)) ≡ (false, to_text n)
unfolding to_text
signless n =
    let (d, rest, low, e) = to_digits_head n two_le_ten (lt_wf.apply n) [] in
    rw e (plain_head d rest low)

read_digits-to_text : (n : ℕ) → read_digits 10 none (to_text n) ≡ some n
unfolding to_text
read_digits-to_text n =
    read_digits-to_digits n two_le_ten (lt_wf.apply n) [] ∙ unfold read_digits in refl

pub parse_int-to_text : (n : ℕ) → ltb n (2 ^ 53) ≡ true → parse_int 10 (to_text n) ≡ some (false, n)
unfolding parse_int
parse_int-to_text n low =
    rw (parse_int, signless n, read_digits-to_text n, to_double_exact n low)
      (ap (λ (m : Bool × Text). some (m.0, n)) (signless n))
