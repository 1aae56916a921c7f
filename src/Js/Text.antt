-- ===== src/Js/Text.antt =====
-- JavaScript strings: lists of UTF-16 code units.
use Prim.Native.Char.{code}
use interchain_event.Common.{
  ℕ, ◌+◌, ◌-◌, ◌≡◌, refl, Bool, true, false, ◌&&◌, Option, none, some, String, List, [], ◌∷◌, ◌++◌,
  arith, ◌==◌, length, replicate, if◌then◌else◌, ◌↔◌,
}

abbrev pub Text : Type 0
Text = List ℕ

-- A literal. Its code points are its code units, as none passes 0xffff.
unfoldable pub text : String → Text
text String.[] = []
text (String.◌∷◌ c s) = code c ∷ text s

-- `===` on strings.
unfoldable pub text_eq : Text → Text → Bool
text_eq [] [] = true
text_eq (a ∷ s) (b ∷ t) = a == b && text_eq s t
text_eq _ _ = false

pub text_eq→eq : (s t : Text) → text_eq s t ≡ true → s ≡ t
unfolding text_eq
text_eq→eq [] [] h = refl
text_eq→eq [] (b ∷ t) h = ground arith
text_eq→eq (a ∷ s) [] h = ground arith
text_eq→eq (a ∷ s) (b ∷ t) h = ground (arith, text_eq→eq s t)

pub text_eq_self : (s : Text) → text_eq s s ≡ true
unfolding text_eq
text_eq_self [] = refl
text_eq_self (a ∷ s) = ground (arith, text_eq_self s)

pub text_eq_iff : (s t : Text) → (text_eq s t ≡ true) ↔ (s ≡ t)
text_eq_iff s t = (text_eq→eq s t, λ e. rw e (text_eq_self t))

-- `s.padStart(n, c)` for a one-unit `c`.
unfoldable pub pad_start : ℕ → ℕ → Text → Text
pad_start n c s = replicate (n - length s) c ++ s

-- The offset of the last `c`, counted from `i`: `lastIndexOf`, with `none` for -1.
unfoldable pub last_index_from : ℕ → ℕ → Option ℕ → Text → Option ℕ
last_index_from c i found [] = found
last_index_from c i found (a ∷ s) = last_index_from c (i + 1) (if a == c then some i else found) s

unfoldable pub last_index_of : Text → ℕ → Option ℕ
unfolding last_index_from
last_index_of s c = last_index_from c 0 none s

unfoldable pub index_from : ℕ → ℕ → Text → Option ℕ
index_from c i [] = none
index_from c i (a ∷ s) = if a == c then some i else index_from c (i + 1) s

-- `indexOf` of one code unit, `none` for -1.
unfoldable pub index_of : Text → ℕ → Option ℕ
unfolding index_from
index_of s c = index_from c 0 s

-- `split` at a one-unit separator; `word` is the part being read.
unfoldable pub split_from : ℕ → Text → Text → List Text
split_from sep word [] = word ∷ []
split_from sep word (c ∷ s) =
    let closed = split_from sep [] s in
    let longer = split_from sep (word ++ (c ∷ [])) s in if c == sep then word ∷ closed else longer

unfoldable pub split : Text → ℕ → List Text
unfolding split_from
split s sep = split_from sep [] s
