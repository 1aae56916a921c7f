-- ===== src/Js/Double.antt =====
-- Whole numbers as JavaScript has them: doubles, which are exact below 2 ^ 53 and rounded from there on.
use interchain_event.Common.{
  ℕ, zero, suc, ◌+◌, ◌*◌, ◌/◌, ◌%◌, ◌^◌, ◌≡◌, refl, true, false, ◌==◌, ltb, if◌then◌else◌,
}

-- The magnitude that stands for Infinity.
abbrev pub infinity : ℕ
infinity = 2 ^ 1024

-- The distance of the doubles around `n`, doubled from `unit` on as often as it takes.
unfoldable pub spacing : ℕ → ℕ → ℕ → ℕ
spacing zero unit n = unit
spacing (suc doublings) unit n = elim (ltb n (unit * 2 ^ 53)) [
  | true ↦ unit
  | false ↦ spacing doublings (2 * unit) n
]

-- The multiple of `unit` that is nearest, of two the even one.
unfoldable pub nearest : ℕ → ℕ → ℕ
nearest unit n =
    let down = n / unit * unit in
    let rest = 2 * (n % unit) in
    if ltb rest unit
    then down
    else if ltb unit rest
    then down + unit
    else if (n / unit) % 2 == 0
    then down
    else down + unit

-- The double of a whole number; beyond the largest one it is Infinity.
unfoldable pub to_double : ℕ → ℕ
unfolding spacing nearest
to_double n = elim (ltb n (2 ^ 53)) [
  | true ↦ n
  | false ↦ elim (ltb n infinity) [ false ↦ infinity | true ↦ nearest (spacing 971 1 n) n ]
]

pub to_double_exact : (n : ℕ) → ltb n (2 ^ 53) ≡ true → to_double n ≡ n
unfolding to_double
to_double_exact n h = rw (to_double, h) refl
