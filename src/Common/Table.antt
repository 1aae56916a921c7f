-- ===== src/Common/Table.antt =====
-- A property of every number below a bound, checked by evaluation.
use interchain_event.Common.{ℕ, zero, suc, ◌<◌, ◌≡◌, Bool, true, ◌&&◌, arith}

unfoldable pub all_below : ℕ → (ℕ → Bool) → Bool
all_below zero p = true
all_below (suc n) p = p n && all_below n p

pub all_below→holds : (n : ℕ) (p : ℕ → Bool) (x : ℕ) → all_below n p ≡ true → x < n → p x ≡ true
unfolding all_below
all_below→holds zero p x h below = absurd (omega arith)
all_below→holds (suc n) p x h below = ground (arith, all_below→holds n p x)
