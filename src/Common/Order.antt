-- ===== src/Common/Order.antt =====
-- `<` on the native numbers is well founded: recursion on a falling number.
use mathlib.Core.WellFounded.{Acc, WellFounded}
use interchain_event.Common.{ℕ, zero, suc, ◌<◌, arith}

Acc-below : (bound n : ℕ) → n < bound → Acc ◌<◌ n
Acc-below zero n h = absurd (omega arith)
Acc-below (suc bound) n h = Acc.intro n (λ m below. Acc-below bound m (omega arith))

unfoldable pub lt_wf : WellFounded ◌<◌
unfolding Acc-below
lt_wf = record { apply = λ n. Acc-below (suc n) n (omega arith) }
