-- ===== src/Js/Number/Shown.antt =====
-- `${n}` and JSON's text of a whole number that is a double: the shortest digits that read back as it.
use interchain_event.Common.{
  ℕ, zero, suc, ◌+◌, ◌-◌, ◌*◌, ◌/◌, ◌%◌, ◌^◌, ◌≡◌, refl, true, false, [], ◌∷◌, ◌++◌, ◌==◌, ltb,
  length, if◌then◌else◌,
}
use interchain_event.Js.Text.{Text, text}
use interchain_event.Js.Double.{infinity, to_double}
use interchain_event.Js.Number.{to_text}

-- The multiples of `10 ^ zeros` next to `n`, the nearer one first.
unfoldable pub near : ℕ → ℕ → ℕ × ℕ
near zeros n =
    let unit = 10 ^ zeros in
    let down = n / unit * unit in
    if ltb (2 * (n % unit)) unit then (down, down + unit) else (down + unit, down)

-- The value of the shortest digits, where at most `zeros` zeros end it.
unfoldable pub shorten : ℕ → ℕ → ℕ
unfolding near
shorten zero n = n
shorten (suc zeros) n =
    let (first, second) = near (suc zeros) n in
    elim (to_double first == n) [
      | true ↦ first
      | false ↦ elim (to_double second == n) [ true ↦ second | false ↦ shorten zeros n ]
    ]

unfoldable pub shortest : ℕ → ℕ
unfolding shorten
shortest n = elim (ltb n (2 ^ 53)) [ true ↦ n | false ↦ shorten 308 n ]

pub shortest_exact : (n : ℕ) → ltb n (2 ^ 53) ≡ true → shortest n ≡ n
unfolding shortest
shortest_exact n h = rw (shortest, h) refl

unfoldable pub trim_zeros : Text → Text
trim_zeros [] = []
trim_zeros (c ∷ s) =
    let rest = trim_zeros s in
    elim rest [ [] ↦ if c == b'0' then [] else c ∷ [] | (d ∷ ds) ↦ c ∷ d ∷ ds ]

unfoldable pub mantissa : Text → Text
unfolding text
mantissa [] = []
mantissa (c ∷ []) = c ∷ []
mantissa (c ∷ d ∷ ds) = c ∷ (text "." ++ (d ∷ ds))

-- From `10 ^ 21` on with an exponent.
unfoldable pub number_text : ℕ → Text
unfolding shortest trim_zeros mantissa text
number_text n = elim (ltb n (2 ^ 53)) [
  | true ↦ to_text n
  | false ↦ elim (ltb n infinity) [
    | false ↦ text "Infinity"
    | true ↦
        let digits = to_text (shortest n) in
        elim (ltb n (10 ^ 21)) [
          | true ↦ digits
          | false ↦ mantissa (trim_zeros digits) ++ (text "e+" ++ to_text (length digits - 1))
        ]
  ]
]

pub number_text_exact : (n : ℕ) → ltb n (2 ^ 53) ≡ true → number_text n ≡ to_text n
unfolding number_text
number_text_exact n h = rw (number_text, h) refl
