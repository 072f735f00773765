-- ===== src/Prelude/Round.antt =====
-- Rounding a quotient to the nearest number, and a half to the even one, as Python's `round` does.
use Prim.Native.Nat.{ℕ, ◌+◌, ◌*◌, ◌/◌, ◌%◌, ◌≤◌, ◌<◌}
use mathlib.Core.Logic.{inl, inr}
use native.Mathlib.Omega.{arith}
use native.Mathlib.Nat.{mul-le-mul_right}
use inference_x.Prelude.Tests.{ltb, if◌then◌else◌, Bool-cases}

unfoldable pub nearest : ℕ → ℕ → ℕ
nearest n d =
    let q = n / d in
    let r = n % d in if ltb (2 * r) d then q else if ltb d (2 * r) then q + 1 else q + q % 2

-- Off by a half at most.
pub nearest_bounds :
    (n d : ℕ) → 0 < d → (2 * (nearest n d * d) ≤ 2 * n + d) × (2 * n ≤ 2 * (nearest n d * d) + d)
unfolding nearest
nearest_bounds n d h = grind arith

-- A bound that is a whole number is kept.
pub nearest-le : (n d k : ℕ) → 0 < d → n ≤ k * d → nearest n d ≤ k
nearest-le n d k h le = elim (Bool-cases (ltb k (nearest n d))) [
  | inl e ↦
      let above : k + 1 ≤ nearest n d = ground (arith, e) in
      absurd (grind (arith, mul-le-mul_right d above, nearest_bounds n d h))
  | inr e ↦ ground (arith, e)
]
