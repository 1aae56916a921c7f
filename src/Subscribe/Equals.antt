-- ===== src/Subscribe/Equals.antt =====
-- The form's Equals condition sends the expected text as it is, and the watcher reads it as base64.
use interchain_event.Common.{
  ℕ, ◌<◌, ◌≤◌, ◌≡◌, ◌≢◌, ◌%◌, refl, ap, Bool, true, false, not, none, some, List, [], ◌∷◌, arith,
  length, filter, Option-cases, ◌⊎◌, inl, inr, ◌==◌, if◌then◌else◌,
}
use interchain_event.Js.Text.{Text, text, text_eq}
use interchain_event.Js.Base64.{sextet, sextets, join_sextets, is_blank, drop_padding, atob}
use interchain_event.Js.Utf8.Ascii.{IsAscii}
use interchain_event.Watcher.Types.{equals}
use interchain_event.Watcher.Condition.{Engine, check_condition}
use interchain_event.Watcher.Condition.Laws.{check_equals_iff}
use interchain_event.Subscribe.Form.{Form, when_equals, build_condition}

-- Bytes fewer than the groups of six bits they come from, unless there are none.
abbrev Shrinks : {A : Type 0} → List A → List ℕ → Type 0
Shrinks xs bytes = (length bytes ≡ 0) ⊎ (length bytes < length xs)

sextets-length : (s : Text) (vs : List ℕ) → sextets s ≡ some vs → length vs ≡ length s
unfolding sextets
sextets-length [] vs e = ground arith
sextets-length (c ∷ s) vs e = elim (Option-cases (sextet c)) [
  | inl bad ↦ ground arith
  | inr (v, good) ↦ elim (Option-cases (sextets s)) [
    | inl bad ↦ ground arith
    | inr (ws, read) ↦ ground (arith, sextets-length s ws read)
  ]
]

join_sextets-length :
    (vs : List ℕ) (bytes : List ℕ) → join_sextets vs ≡ some bytes → Shrinks vs bytes
unfolding join_sextets
join_sextets-length [] bytes e = ground arith
join_sextets-length (a ∷ []) bytes e = ground arith
join_sextets-length (a ∷ b ∷ []) bytes e = ground arith
join_sextets-length (a ∷ b ∷ c ∷ []) bytes e = ground arith
join_sextets-length (a ∷ b ∷ c ∷ d ∷ vs) bytes e = elim (Option-cases (join_sextets vs)) [
  | inl bad ↦ ground arith
  | inr (ws, read) ↦ ground (arith, join_sextets-length vs ws read)
]

length-filter : (p : ℕ → Bool) (s : Text) → length (filter p s) ≤ length s
length-filter p [] = omega arith
length-filter p (c ∷ s) = ground (arith, length-filter p s)

length-drop_padding : (s : Text) → length (drop_padding s) ≤ length s
unfolding drop_padding
length-drop_padding [] = omega arith
length-drop_padding (a ∷ []) = ground arith
length-drop_padding (a ∷ b ∷ []) = ground arith
length-drop_padding (a ∷ b ∷ c ∷ s) = ground (arith, length-drop_padding (b ∷ c ∷ s))

decoded-length :
    (body : Text) (bytes : List ℕ)
    → elim (sextets body) [ none ↦ none | some vs ↦ join_sextets vs ] ≡ some bytes
    → Shrinks body bytes
decoded-length body bytes e = elim (Option-cases (sextets body)) [
  | inl bad ↦ ground arith
  | inr (vs, read) ↦ ground (arith, sextets-length body vs read, join_sextets-length vs bytes)
]

body-length : (b : Bool) (s t : Text) → length t ≤ length s → length (if b then t else s) ≤ length s
body-length true s t h = h
body-length false s t h = omega arith

Shrinks-longer :
    (s t : Text) (bytes : List ℕ) → length t ≤ length s → Shrinks t bytes → Shrinks s bytes
Shrinks-longer s t bytes h (inl e) = inl e
Shrinks-longer s t bytes h (inr less) = inr (omega arith)

atob-length : (s : Text) (bytes : List ℕ) → atob s ≡ some bytes → Shrinks s bytes
unfolding atob
atob-length s bytes e =
    let bare = filter (λ c. not (is_blank c)) s in
    let body = if length bare % 4 == 0 then drop_padding bare else bare in
    let fewer = length-filter (λ c. not (is_blank c)) s in
    let part =
      body-length (length bare % 4 == 0) bare (drop_padding bare) (length-drop_padding bare) in
    Shrinks-longer s body bytes (omega arith) (decoded-length body bytes e)

Shrinks-differs : (s : Text) (bytes : List ℕ) → 0 < length s → Shrinks s bytes → s ≢ bytes
Shrinks-differs s bytes h (inl none_left) same = omega (arith, ap length same)
Shrinks-differs s bytes h (inr less) same = omega (arith, ap length same)

not_met : (b : Bool) → (b ≢ true) → b ≡ false
not_met true h = absurd (h refl)
not_met false h = refl

build_equals :
    (form : Form)
    → form.condition ≡ text "Equals"
    → build_condition form ≡ some (when_equals form.expected_value)
unfolding build_condition text_eq text
build_equals form asked = simp (build_condition, asked)

-- If the expected text of the form's condition `Equals` is ASCII, not empty and base64 by its
-- letters, the form sends the text itself as what is expected, and `checkCondition` then refuses
-- the value of exactly that text.
pub equals_refuses_itself :
    (engine : Engine) (form : Form) (decoded : List ℕ)
    → form.condition ≡ text "Equals"
    → atob form.expected_value ≡ some decoded
    → IsAscii form.expected_value
    → 0 < length form.expected_value
    → (build_condition form ≡ some (when_equals form.expected_value))
      × (check_condition engine (equals form.expected_value) form.expected_value ≡ false)
equals_refuses_itself engine form decoded asked read ascii present =
    let differs =
      Shrinks-differs form.expected_value decoded present
        (atob-length form.expected_value decoded read) in
    (
      build_equals form asked,
      not_met _ (λ met. differs (
          (check_equals_iff engine form.expected_value decoded form.expected_value read ascii).0
            met)),
    )
