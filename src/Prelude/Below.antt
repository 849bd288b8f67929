-- ===== src/Prelude/Below.antt =====
-- A Boolean test that holds of all numbers below a bound, checked by running it.
use Prim.Native.Nat.{ℕ, zero, suc, ◌<◌}
use mathlib.Core.Path.{◌≡◌, refl, ap, ◌∙◌}
use mathlib.Core.Bool.{Bool, true, false, ◌&&◌}
use native.Mathlib.Omega.{arith}
use native.Mathlib.Decide.{dec_lt}

unfoldable pub all_below : (ℕ → Bool) → ℕ → Bool
all_below p zero = true
all_below p (suc n) = p n && all_below p n

pub both : (a b : Bool) → (a && b) ≡ true → (a ≡ true) × (b ≡ true)
both true b h = (refl, h)
both false b h = absurd (cc h)

pub all_below-at : (p : ℕ → Bool) (n i : ℕ) → all_below p n ≡ true → i < n → p i ≡ true
unfolding all_below
all_below-at p zero i h lt = absurd (omega arith)
all_below-at p (suc n) i h lt = elim (dec_lt i n) [
  | yes less ↦ all_below-at p n i (both (p n) (all_below p n) h).1 less
  | no ge ↦ ap p (omega arith) ∙ (both (p n) (all_below p n) h).0
]
