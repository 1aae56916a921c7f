-- ===== src/Js/Base64/Encode.antt =====
-- `btoa`, and that `atob` reads what it writes.
use interchain_event.Common.{
  ℕ, ◌+◌, ◌-◌, ◌*◌, ◌/◌, ◌%◌, ◌<◌, ◌≡◌, refl, ap, ◌∙◌, Bool, true, false, not, Option, none, some,
  List, [], ◌∷◌, ◌++◌, arith, ltb, ◌==◌, all, All, map, filter, length, if◌then◌else◌,
}
use interchain_event.Js.Text.{Text}
use interchain_event.Js.Base64.{sextet, sextets, join_sextets, is_blank, drop_padding, atob}

-- The character of six bits.
unfoldable pub letter : ℕ → ℕ
letter v =
    if ltb v 26
    then v + b'A'
    else if ltb v 52
    then v - 26 + b'a'
    else if ltb v 62
    then v - 52 + b'0'
    else if v == 62
    then b'+'
    else b'/'

-- The groups of six bits, the last one filled up with zeroes.
unfoldable pub six_bits : List ℕ → List ℕ
six_bits [] = []
six_bits (a ∷ []) = a / 4 ∷ a % 4 * 16 ∷ []
six_bits (a ∷ b ∷ []) = a / 4 ∷ (a % 4 * 16 + b / 16) ∷ b % 16 * 4 ∷ []
six_bits (a ∷ b ∷ c ∷ bytes) =
    a / 4 ∷ (a % 4 * 16 + b / 16) ∷ (b % 16 * 4 + c / 64) ∷ c % 64 ∷ six_bits bytes

unfoldable pub padding : List ℕ → Text
padding [] = []
padding (a ∷ []) = b'=' ∷ b'=' ∷ []
padding (a ∷ b ∷ []) = b'=' ∷ []
padding (a ∷ b ∷ c ∷ bytes) = padding bytes

-- The text of bytes in base64.
unfoldable pub encode_base64 : List ℕ → Text
unfolding letter six_bits padding
encode_base64 bytes = map letter (six_bits bytes) ++ padding bytes

-- `btoa(s)`: a unit above 0xff is an InvalidCharacterError.
unfoldable pub btoa : Text → Option Text
unfolding encode_base64
btoa s = if all (λ c. ltb c 256) s then some (encode_base64 s) else none

sextet-letter : (v : ℕ) → v < 64 → sextet (letter v) ≡ some v
unfolding sextet letter
sextet-letter v h = ground arith

letter_visible : (v : ℕ) → is_blank (letter v) ≡ false
unfolding is_blank letter
letter_visible v = ground arith

letter_no_pad : (v : ℕ) → (letter v == b'=') ≡ false
unfolding letter
letter_no_pad v = ground arith

sextets-letters : (vs : List ℕ) → All (λ v. v < 64) vs → sextets (map letter vs) ≡ some vs
unfolding sextets
sextets-letters [] h = refl
sextets-letters (v ∷ vs) (hv, h) = ground (arith, sextet-letter v hv, sextets-letters vs h)

join_sextets-six_bits :
    (bytes : List ℕ) → All (λ b. b < 256) bytes → join_sextets (six_bits bytes) ≡ some bytes
unfolding join_sextets six_bits
join_sextets-six_bits [] h = refl
join_sextets-six_bits (a ∷ []) (ha, h) = ground arith
join_sextets-six_bits (a ∷ b ∷ []) (ha, (hb, h)) = ground arith
join_sextets-six_bits (a ∷ b ∷ c ∷ bytes) (ha, (hb, (hc, h))) =
    ground (arith, join_sextets-six_bits bytes h)

six_bits-small : (bytes : List ℕ) → All (λ b. b < 256) bytes → All (λ v. v < 64) (six_bits bytes)
unfolding six_bits
six_bits-small [] h = tt
six_bits-small (a ∷ []) (ha, h) = omega arith
six_bits-small (a ∷ b ∷ []) (ha, (hb, h)) = omega arith
six_bits-small (a ∷ b ∷ c ∷ bytes) (ha, (hb, (hc, h))) =
    (omega arith, (omega arith, (omega arith, (omega arith, six_bits-small bytes h))))

abbrev is_visible : ℕ → Bool
is_visible c = not (is_blank c)

filter-letters :
    (vs : List ℕ) (s : Text)
    → filter is_visible (map letter vs ++ s) ≡ map letter vs ++ filter is_visible s
filter-letters [] s = refl
filter-letters (v ∷ vs) s = ground (arith, letter_visible v, filter-letters vs s)

filter-padding : (bytes : List ℕ) → filter is_visible (padding bytes) ≡ padding bytes
unfolding padding is_blank
filter-padding [] = refl
filter-padding (a ∷ []) = refl
filter-padding (a ∷ b ∷ []) = refl
filter-padding (a ∷ b ∷ c ∷ bytes) = filter-padding bytes

filter-encode_base64 :
    (bytes : List ℕ) → filter is_visible (encode_base64 bytes) ≡ encode_base64 bytes
unfolding encode_base64
filter-encode_base64 bytes =
    filter-letters (six_bits bytes) (padding bytes)
    ∙ ap (λ (t : Text). map letter (six_bits bytes) ++ t) (filter-padding bytes)

length-encode_base64 : (bytes : List ℕ) → length (encode_base64 bytes) % 4 ≡ 0
unfolding encode_base64 six_bits padding
length-encode_base64 [] = refl
length-encode_base64 (a ∷ []) = refl
length-encode_base64 (a ∷ b ∷ []) = refl
length-encode_base64 (a ∷ b ∷ c ∷ bytes) = omega (arith, length-encode_base64 bytes)

drop_padding-encode_base64 :
    (bytes : List ℕ) → drop_padding (encode_base64 bytes) ≡ map letter (six_bits bytes)
unfolding encode_base64 six_bits padding drop_padding
drop_padding-encode_base64 [] = refl
drop_padding-encode_base64 (a ∷ []) = refl
drop_padding-encode_base64 (a ∷ b ∷ []) = ground (arith, letter_no_pad (b % 16 * 4))
drop_padding-encode_base64 (a ∷ b ∷ c ∷ []) = ground (arith, letter_no_pad (c % 64))
drop_padding-encode_base64 (a ∷ b ∷ c ∷ d ∷ []) = refl
drop_padding-encode_base64 (a ∷ b ∷ c ∷ d ∷ e ∷ []) = ground (arith, letter_no_pad (e % 16 * 4))
drop_padding-encode_base64 (a ∷ b ∷ c ∷ d ∷ e ∷ f ∷ bytes) =
    let more = drop_padding-encode_base64 (d ∷ e ∷ f ∷ bytes) in
    ap
      (λ (t : Text).
        letter (a / 4)
        ∷ letter (a % 4 * 16 + b / 16)
        ∷ letter (b % 16 * 4 + c / 64)
        ∷ letter (c % 64)
        ∷ t)
      more

all_bytes : (bytes : List ℕ) → All (λ b. b < 256) bytes → all (λ c. ltb c 256) bytes ≡ true
all_bytes [] h = refl
all_bytes (b ∷ bytes) (hb, h) = ground (arith, all_bytes bytes h)

abbrev decoded : Text → Option Text
decoded bare =
    let body = if length bare % 4 == 0 then drop_padding bare else bare in
    elim (sextets body) [ none ↦ none | some vs ↦ join_sextets vs ]

decoded-sextets :
    (bare body : Text) (vs : List ℕ)
    → length bare % 4 ≡ 0
    → drop_padding bare ≡ body
    → sextets body ≡ some vs
    → decoded bare ≡ join_sextets vs
decoded-sextets bare body vs whole dropped read = ground arith

decoded-encode_base64 :
    (bytes : List ℕ) → All (λ b. b < 256) bytes → decoded (encode_base64 bytes) ≡ some bytes
decoded-encode_base64 bytes h =
    decoded-sextets (encode_base64 bytes) _ (six_bits bytes) (length-encode_base64 bytes)
      (drop_padding-encode_base64 bytes) (sextets-letters (six_bits bytes) (six_bits-small bytes h))
    ∙ join_sextets-six_bits bytes h

pub atob-encode_base64 :
    (bytes : List ℕ) → All (λ b. b < 256) bytes → atob (encode_base64 bytes) ≡ some bytes
unfolding atob
atob-encode_base64 bytes h = ap decoded (filter-encode_base64 bytes) ∙ decoded-encode_base64 bytes h

-- For bytes, `btoa` answers.
pub btoa-encode_base64 :
    (bytes : List ℕ) → All (λ b. b < 256) bytes → btoa bytes ≡ some (encode_base64 bytes)
unfolding btoa
btoa-encode_base64 bytes h = simp (all_bytes bytes h)
