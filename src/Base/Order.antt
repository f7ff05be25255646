-- ===== src/Base/Order.antt =====
-- `<` on the native numbers is well founded.
use Prim.Native.Nat.{ℕ, zero, suc, ◌<◌}
use mathlib.Core.WellFounded.{Acc, WellFounded}
use native.Mathlib.Omega.{arith}

Acc-below : (k n : ℕ) → n < k → Acc ◌<◌ n
Acc-below zero n h = elim h [ ]
Acc-below (suc k) n h = Acc.intro n (λ m hm. Acc-below k m (omega arith))

unfoldable pub Acc-lt : (n : ℕ) → Acc ◌<◌ n
unfolding Acc-below
Acc-lt n = Acc-below (suc n) n (omega arith)

unfoldable pub lt_wf : WellFounded ◌<◌
unfolding Acc-lt
lt_wf = record { apply = Acc-lt }
