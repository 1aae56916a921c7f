-- ===== src/Codec/Varint.antt =====
-- `encodeVarint` (scripts/proof.ts, frontend/server/utils/watcher.ts) and a reader of such numbers.
use mathlib.Core.WellFounded.{Acc}
use mathlib.Core.Logic.{dite}
use Prim.Native.Nat.{bit_or}
use native.Mathlib.Decide.{dec_lt}
use interchain_event.Common.{
  ℕ, zero, suc, ◌+◌, ◌*◌, ◌/◌, ◌%◌, ◌^◌, ◌<◌, ◌≡◌, refl, ap, Option, none, some, [], ◌∷◌, ◌++◌,
  arith, ltb, ◌==◌, ==_iff, if◌then◌else◌,
}
use interchain_event.Common.Table.{all_below, all_below→holds}
use mathlib.Core.List.{append_assoc}
use interchain_event.Common.Order.{lt_wf}
use interchain_event.Codec.Hex.{Bytes}

pub shift_shrinks : (v : ℕ) → 0x7f < v → v % 2 ^ 32 / 128 < v
shift_shrinks v h = omega arith

-- `value & 0x7f` is the remainder by 128, and `value >>>= 7` takes the number modulo 2 ^ 32 first.
unfoldable pub varint_loop : Bytes → (v : ℕ) → Acc ◌<◌ v → Bytes
varint_loop bytes v (Acc.intro _ smaller) =
    dite (dec_lt 0x7f v)
      (λ more.
        varint_loop (bytes ++ (bit_or (v % 128) 0x80 ∷ [])) (v % 2 ^ 32 / 128)
          (smaller _ (shift_shrinks v more)))
      (λ _. bytes ++ (v % 128 ∷ []))

unfoldable pub encode_varint : ℕ → Bytes
unfolding varint_loop lt_wf dec_lt
encode_varint value = varint_loop [] value (lt_wf.apply value)

-- Protobuf's base 128 numbers: low groups first, the top bit says that more follow. At most ten bytes.
unfoldable pub read_varint : ℕ → Bytes → Option (ℕ × Bytes)
read_varint zero bytes = none
read_varint (suc fuel) [] = none
read_varint (suc fuel) (b ∷ bytes) =
    let more = read_varint fuel bytes in
    if ltb b 128
    then some (b, bytes)
    else elim more [ none ↦ none | some (high, rest) ↦ some (b % 128 + 128 * high, rest) ]

-- The groups of seven bits of a number below 128 ^ (k + 1), lowest first.
unfoldable pub groups : ℕ → ℕ → Bytes
groups zero v = v ∷ []
groups (suc k) v =
    let rest = groups k (v / 128) in if ltb v 128 then v ∷ [] else (v % 128 + 128) ∷ rest

top_bit : (g : ℕ) → g < 128 → bit_or g 0x80 ≡ g + 128
top_bit g h =
    (==_iff _ _).0
      (all_below→holds 128 (λ x. bit_or x 0x80 == x + 128) g (unfold all_below in refl) h)

varint_loop-groups :
    (k : ℕ) (bytes : Bytes) (v : ℕ) (w : Acc ◌<◌ v)
    → v < 128 ^ suc k
    → v < 2 ^ 32
    → varint_loop bytes v w ≡ bytes ++ groups k v
unfolding varint_loop groups
varint_loop-groups zero bytes v (Acc.intro _ smaller) h fits =
    let small : v % 128 ≡ v = omega arith in ground (arith, ap (λ (x : ℕ). bytes ++ (x ∷ [])) small)
varint_loop-groups (suc k) bytes v (Acc.intro _ smaller) h fits =
    let head : Bytes = (v % 128 + 128) ∷ [] in
    let same : v % 2 ^ 32 / 128 ≡ v / 128 = omega arith in
    grind (
      arith,
      top_bit (v % 128),
      λ (w : Acc ◌<◌ (v % 2 ^ 32 / 128)).
          varint_loop-groups k (bytes ++ head) (v % 2 ^ 32 / 128) w (omega arith) (omega arith),
      ap (groups k) same,
      append_assoc bytes head (groups k (v / 128)),
    )

-- Below 2 ^ 32 the shift loses nothing, and five groups are enough.
pub encode_varint-groups : (v : ℕ) → v < 2 ^ 32 → encode_varint v ≡ groups 4 v
unfolding encode_varint
encode_varint-groups v h = varint_loop-groups 4 [] v (lt_wf.apply v) (omega arith) h

pub read_varint-groups :
    (k fuel v : ℕ) (rest : Bytes)
    → v < 128 ^ suc k
    → k < fuel
    → read_varint fuel (groups k v ++ rest) ≡ some (v, rest)
unfolding read_varint groups
read_varint-groups zero zero v rest h enough = absurd (omega arith)
read_varint-groups zero (suc fuel) v rest h enough = ground arith
read_varint-groups (suc k) zero v rest h enough = absurd (omega arith)
read_varint-groups (suc k) (suc fuel) v rest h enough =
    ground (arith, read_varint-groups k fuel (v / 128) rest (omega arith))

-- For a number below 2 ^ 32, a reader of protobuf's base 128 numbers gets from what `encodeVarint`
-- wrote the number and the bytes that follow.
pub read_varint-encode_varint :
    (v : ℕ) (rest : Bytes) → v < 2 ^ 32 → read_varint 10 (encode_varint v ++ rest) ≡ some (v, rest)
read_varint-encode_varint v rest h =
    rw (encode_varint-groups v h) (read_varint-groups 4 10 v rest (omega arith) (omega arith))
