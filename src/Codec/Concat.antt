-- ===== src/Codec/Concat.antt =====
-- `concatBytes` (scripts/iavl-key.ts), which is also the end of both `buildMerkleProof`s: a zeroed
-- array of the total length is filled part by part.
use mathlib.Core.List.{append_assoc}
use interchain_event.Common.{
  ℕ, zero, suc, ◌+◌, ◌≡◌, refl, ◌∙◌, Option, none, some, List, [], ◌∷◌, ◌++◌, arith, length,
  replicate, length-append,
}
use interchain_event.Codec.Hex.{Bytes}

infixl 5 ◌>>=◌
abbrev ◌>>=◌ : {A B : Type 0} → Option A → (A → Option B) → Option B
none >>= f = none
some a >>= f = f a

-- `target.set(part, offset)`: `none` is the RangeError of a part that does not fit.
unfoldable pub set_bytes : Bytes → ℕ → Bytes → Option Bytes
set_bytes [] zero target = some target
set_bytes (b ∷ part) zero [] = none
set_bytes (b ∷ part) zero (t ∷ target) = do rest ← set_bytes part zero target; some (b ∷ rest)
set_bytes part (suc offset) [] = none
set_bytes part (suc offset) (t ∷ target) = do rest ← set_bytes part offset target; some (t ∷ rest)

-- `arrays.reduce((acc, a) => acc + a.length, 0)`
unfoldable pub total_length : List Bytes → ℕ
total_length [] = 0
total_length (a ∷ arrays) = length a + total_length arrays

unfoldable pub fill : List Bytes → ℕ → Bytes → Option Bytes
unfolding set_bytes
fill [] offset result = some result
fill (a ∷ arrays) offset result = do
  result' ← set_bytes a offset result
  fill arrays (offset + length a) result'

unfoldable pub concat_bytes : List Bytes → Option Bytes
unfolding total_length fill
concat_bytes arrays = fill arrays 0 (replicate (total_length arrays) 0)

-- The arrays one after the other.
unfoldable pub joined : List Bytes → Bytes
joined [] = []
joined (a ∷ arrays) = a ++ joined arrays

-- Writing where the zeroes begin, `t` of them, leaves `n` of them.
set_bytes-zeroes :
    (done part : Bytes) (t n : ℕ)
    → t ≡ length part + n
    → set_bytes part (length done) (done ++ replicate t 0) ≡ some (done ++ part ++ replicate n 0)
unfolding set_bytes
set_bytes-zeroes [] [] t n e = let same : t ≡ n = omega arith in rw same
set_bytes-zeroes [] (b ∷ part) zero n e = absurd (omega arith)
set_bytes-zeroes [] (b ∷ part) (suc t) n e = rw (set_bytes-zeroes [] part t n (omega arith))
set_bytes-zeroes (d ∷ done) [] t n e = rw (set_bytes-zeroes done [] t n e)
set_bytes-zeroes (d ∷ done) (b ∷ part) t n e = rw (set_bytes-zeroes done (b ∷ part) t n e)

fill-zeroes :
    (arrays : List Bytes) (done : Bytes)
    → fill arrays (length done) (done ++ replicate (total_length arrays) 0)
      ≡ some (done ++ joined arrays)
unfolding fill total_length joined
fill-zeroes [] done = refl
fill-zeroes (a ∷ arrays) done =
    rw (set_bytes-zeroes done a _ (total_length arrays) refl, ← append_assoc, ← length-append)
      (fill-zeroes arrays (done ++ a) ∙ rw append_assoc)

-- `concatBytes`, which fills a zeroed array part by part, never throws and returns the arrays one
-- after the other.
pub concat_bytes-eq-joined : (arrays : List Bytes) → concat_bytes arrays ≡ some (joined arrays)
unfolding concat_bytes
concat_bytes-eq-joined arrays = fill-zeroes arrays []
