-- ===== src/Js/Base64.antt =====
-- `atob`: the forgiving base64 decoder of the HTML standard.
pub mod Encode
use interchain_event.Common.{
  ℕ, ◌+◌, ◌-◌, ◌*◌, ◌/◌, ◌%◌, Bool, not, ◌&&◌, ◌||◌, Option, none, some, List, [], ◌∷◌, leb, ◌==◌,
  length, filter, if◌then◌else◌,
}
use interchain_event.Js.Text.{Text}

unfoldable pub sextet : ℕ → Option ℕ
sextet c =
    if leb b'A' c && leb c b'Z'
    then some (c - b'A')
    else if leb b'a' c && leb c b'z'
    then some (c - b'a' + 26)
    else if leb b'0' c && leb c b'9'
    then some (c - b'0' + 52)
    else if c == b'+'
    then some 62
    else if c == b'/'
    then some 63
    else none

unfoldable pub sextets : Text → Option (List ℕ)
unfolding sextet
sextets [] = some []
sextets (c ∷ s) = elim (sextet c) [
  | none ↦ none
  | some v ↦ elim (sextets s) [ none ↦ none | some vs ↦ some (v ∷ vs) ]
]

-- Four groups of six bits are three bytes. What is left is two or three groups, whose last bits are
-- dropped; one group alone is refused.
unfoldable pub join_sextets : List ℕ → Option (List ℕ)
join_sextets [] = some []
join_sextets (a ∷ []) = none
join_sextets (a ∷ b ∷ []) = some ((a * 4 + b / 16) ∷ [])
join_sextets (a ∷ b ∷ c ∷ []) = some ((a * 4 + b / 16) ∷ (b % 16 * 16 + c / 4) ∷ [])
join_sextets (a ∷ b ∷ c ∷ d ∷ vs) = elim (join_sextets vs) [
  | none ↦ none
  | some bytes ↦ some ((a * 4 + b / 16) ∷ (b % 16 * 16 + c / 4) ∷ (c % 4 * 64 + d) ∷ bytes)
]

unfoldable pub is_blank : ℕ → Bool
is_blank c = c == 9 || c == 10 || c == 12 || c == 13 || c == 32

-- One or two `=` at the end.
unfoldable pub drop_padding : Text → Text
drop_padding [] = []
drop_padding (a ∷ []) = if a == b'=' then [] else a ∷ []
drop_padding (a ∷ b ∷ []) = if b == b'=' then (if a == b'=' then [] else a ∷ []) else a ∷ b ∷ []
drop_padding (a ∷ b ∷ c ∷ s) = a ∷ drop_padding (b ∷ c ∷ s)

-- `atob(s)`: the bytes as code units, `none` for the InvalidCharacterError.
unfoldable pub atob : Text → Option Text
unfolding sextets join_sextets is_blank drop_padding
atob s =
    let bare = filter (λ c. not (is_blank c)) s in
    let body = if length bare % 4 == 0 then drop_padding bare else bare in
    elim (sextets body) [ none ↦ none | some vs ↦ join_sextets vs ]
