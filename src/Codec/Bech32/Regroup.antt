-- ===== src/Codec/Bech32/Regroup.antt =====
-- The bytes of an address spell the same number as its five-bit groups.
use native.Mathlib.Nat.{add-zero, zero-add}
use interchain_event.Common.{
  ℕ, zero, suc, ◌+◌, ◌*◌, ◌/◌, ◌%◌, ◌^◌, ◌<◌, ◌≡◌, refl, List, [], ◌∷◌, ◌++◌, arith, length,
  length-append, All, All-append, Option-cases, inl, inr, some,
}
use interchain_event.Js.Text.{Text, text, index_from, index_of}
use interchain_event.Codec.Hex.{Bytes, IsByte, bytes_to_hex}
use interchain_event.Codec.Bech32.{
  Bits, no_bits, push_value, push_values, charset, charset_values, address_payload,
  bech32_addr_to_hex,
}

-- The number that digits in a base spell, behind the number `n`.
unfoldable pub spelled : ℕ → ℕ → List ℕ → ℕ
spelled base n [] = n
spelled base n (d ∷ ds) = spelled base (n * base + d) ds

spelled-append_one :
    (base n d : ℕ) (ds : List ℕ) → spelled base n (ds ++ (d ∷ [])) ≡ spelled base n ds * base + d
unfolding spelled
spelled-append_one base n d [] = refl
spelled-append_one base n d (e ∷ ds) = spelled-append_one base (n * base + e) d ds

-- After the groups that spell `n`, `count` of them: the bytes taken and the bits that are left over.
pub record Holds (n count : ℕ) (s : Bits) : Type 0 where
  pub few : s.bits < 8
  pub value : spelled 256 0 s.bytes * 2 ^ s.bits + s.acc % 2 ^ s.bits ≡ n
  pub counted : 8 * length s.bytes + s.bits ≡ 5 * count
  pub in_range : All IsByte s.bytes

-- A sum of parts in range stays so.
IsByte-append_one :
    (bytes : Bytes) (b : ℕ) → All IsByte bytes → All IsByte (bytes ++ (b % 256 ∷ []))
IsByte-append_one bytes b h = All-append IsByte bytes (b % 256 ∷ []) h (omega arith)

length-append_one : (bytes : Bytes) (b : ℕ) → length (bytes ++ (b ∷ [])) ≡ length bytes + 1
length-append_one bytes b = omega (arith, length-append bytes (b ∷ []))

-- One group, for each number of bits that can be left over.
push_at :
    (acc v n count bits : ℕ) (bytes : Bytes)
    → v < 32
    → Holds n count (record { acc = acc; bits = bits; bytes = bytes })
    → Holds
        (n * 32 + v)
        (count + 1)
        (push_value (record { acc = acc; bits = bits; bytes = bytes }) v)
unfolding push_value
push_at acc v n count zero bytes small h = ground arith
push_at acc v n count (suc zero) bytes small h = ground arith
push_at acc v n count (suc (suc zero)) bytes small h = ground arith
push_at acc v n count (suc (suc (suc zero))) bytes small h = ground (
  arith,
  spelled-append_one 256 0 (((acc * 32 + v) % 2 ^ 32 / 1) % 256) bytes,
  length-append_one bytes (((acc * 32 + v) % 2 ^ 32 / 1) % 256),
  IsByte-append_one bytes ((acc * 32 + v) % 2 ^ 32 / 1),
)
push_at acc v n count (suc (suc (suc (suc zero)))) bytes small h = ground (
  arith,
  spelled-append_one 256 0 (((acc * 32 + v) % 2 ^ 32 / 2) % 256) bytes,
  length-append_one bytes (((acc * 32 + v) % 2 ^ 32 / 2) % 256),
  IsByte-append_one bytes ((acc * 32 + v) % 2 ^ 32 / 2),
)
push_at acc v n count (suc (suc (suc (suc (suc zero))))) bytes small h = ground (
  arith,
  spelled-append_one 256 0 (((acc * 32 + v) % 2 ^ 32 / 4) % 256) bytes,
  length-append_one bytes (((acc * 32 + v) % 2 ^ 32 / 4) % 256),
  IsByte-append_one bytes ((acc * 32 + v) % 2 ^ 32 / 4),
)
push_at acc v n count (suc (suc (suc (suc (suc (suc zero)))))) bytes small h = ground (
  arith,
  spelled-append_one 256 0 (((acc * 32 + v) % 2 ^ 32 / 8) % 256) bytes,
  length-append_one bytes (((acc * 32 + v) % 2 ^ 32 / 8) % 256),
  IsByte-append_one bytes ((acc * 32 + v) % 2 ^ 32 / 8),
)
push_at acc v n count (suc (suc (suc (suc (suc (suc (suc zero))))))) bytes small h = ground (
  arith,
  spelled-append_one 256 0 (((acc * 32 + v) % 2 ^ 32 / 16) % 256) bytes,
  length-append_one bytes (((acc * 32 + v) % 2 ^ 32 / 16) % 256),
  IsByte-append_one bytes ((acc * 32 + v) % 2 ^ 32 / 16),
)
push_at acc v n count (suc (suc (suc (suc (suc (suc (suc (suc more)))))))) bytes small h =
    absurd (omega (arith, h.few))

push_value-Holds :
    (n count : ℕ) (s : Bits) (v : ℕ)
    → v < 32
    → Holds n count s
    → Holds (n * 32 + v) (count + 1) (push_value s v)
push_value-Holds n count s v small h = push_at s.acc v n count s.bits s.bytes small h

push_values-Holds :
    (vs : List ℕ) (n count : ℕ) (s : Bits)
    → All (λ v. v < 32) vs
    → Holds n count s
    → Holds (spelled 32 n vs) (count + length vs) (push_values s vs)
unfolding push_values spelled
push_values-Holds [] n count s small h = rw add-zero h
push_values-Holds (v ∷ vs) n count s (first, small) h =
    let e : count + length (v ∷ vs) ≡ count + 1 + length vs = omega arith in
    rw e (
      push_values-Holds vs (n * 32 + v) (count + 1) (push_value s v) small
        (push_value-Holds n count s v first h))

push_values-from_no_bits :
    (vs : List ℕ)
    → All (λ v. v < 32) vs
    → Holds (spelled 32 0 vs) (length vs) (push_values no_bits vs)
push_values-from_no_bits vs small = rw zero-add at (
    push_values-Holds vs 0 0 no_bits small (record {
      few = omega arith;
      value = unfold spelled in omega arith;
      counted = omega arith;
      in_range = tt;
    }))

index_from-lt : (c i v : ℕ) (s : Text) → index_from c i s ≡ some v → v < i + length s
unfolding index_from
index_from-lt c i v [] e = cc
index_from-lt c i v (a ∷ s) e = ground (arith, index_from-lt c (i + 1) v s)

-- The alphabet has 32 characters.
index_of-charset : (c v : ℕ) → index_of charset c ≡ some v → v < 32
unfolding index_of text
index_of-charset c v e = index_from-lt c 0 v charset e

charset_values-small : (s : Text) {vs : List ℕ} → charset_values s ≡ some vs → All (λ v. v < 32) vs
unfolding charset_values
charset_values-small [] {vs} e = let none_read : vs ≡ [] = ground arith in rw none_read tt
charset_values-small (c ∷ s) {vs} e = elim (Option-cases (index_of charset c)) [
  | inl bad ↦ ground arith
  | inr (v, found) ↦ elim (Option-cases (charset_values s)) [
    | inl bad ↦ ground arith
    | inr (rest, more) ↦
        let read : vs ≡ v ∷ rest = ground arith in
        rw read (index_of-charset c v found, charset_values-small s more)
  ]
]

-- If every payload character of an address is in the alphabet, `bech32AddrToHex` returns the hex
-- of bytes that, with the fewer than eight bits left over behind them, spell the number that the
-- characters' five-bit values spell, eight bits a byte.
pub bech32_addr_to_hex-Holds :
    (addr : Text) (vs : List ℕ)
    → charset_values (address_payload addr) ≡ some vs
    → (s : Bits) × (bech32_addr_to_hex addr ≡ some (bytes_to_hex s.bytes))
      × Holds (spelled 32 0 vs) (length vs) s
unfolding bech32_addr_to_hex
bech32_addr_to_hex-Holds addr vs e = (
  push_values no_bits vs,
  rw (e, bech32_addr_to_hex),
  push_values-from_no_bits vs (charset_values-small (address_payload addr) e),
)
