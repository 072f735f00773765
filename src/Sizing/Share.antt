-- ===== src/Sizing/Share.antt =====
-- The order of exact quotients, by which the sizing compares its shares of the GPU.
use native.Mathlib.Nat.{le_of_mul-le-mul_right, mul-le-mul_right}
use inference_x.Prelude.{
  ◌*◌, ◌≤◌, ◌<◌, leb, ◌⊎◌, inl, inr, ◌≡◌, refl, arith, Bool-cases, if◌then◌else◌,
}
use inference_x.Schemas.{Fraction}

abbrev pub ◌≤ᶠ◌ : Fraction → Fraction → Type 0
a ≤ᶠ b = a.num * b.den ≤ b.num * a.den

infix 50 ◌≤ᶠ◌
-- Python's `min(a, b)` and `max(a, b)`.
unfoldable pub min_share : Fraction → Fraction → Fraction
min_share a b = if leb (a.num * b.den) (b.num * a.den) then a else b

unfoldable pub max_share : Fraction → Fraction → Fraction
max_share a b = if leb (b.num * a.den) (a.num * b.den) then a else b

abbrev pub Positive : Fraction → Type 0
Positive a = 0 < a.den

pub le-trans : (a b c : Fraction) → Positive b → a ≤ᶠ b → b ≤ᶠ c → a ≤ᶠ c
le-trans a b c h p q =
    le_of_mul-le-mul_right (grind (arith, mul-le-mul_right c.den p, mul-le-mul_right a.den q)) h

pub min_share-le_right : (a b : Fraction) → min_share a b ≤ᶠ b
unfolding min_share
min_share-le_right a b = ground arith

pub min_share-le_left : (a b : Fraction) → min_share a b ≤ᶠ a
unfolding min_share
min_share-le_left a b = ground arith

pub le-max_share : (a b : Fraction) → b ≤ᶠ max_share a b
unfolding max_share
le-max_share a b = ground arith

pub le-max_share_left : (a b : Fraction) → a ≤ᶠ max_share a b
unfolding max_share
le-max_share_left a b = ground arith

pub min_share-cases : (a b : Fraction) → (min_share a b ≡ a) ⊎ (min_share a b ≡ b)
unfolding min_share
min_share-cases a b = elim (Bool-cases (leb (a.num * b.den) (b.num * a.den))) [
  | inl e ↦ inl (rw e refl)
  | inr e ↦ inr (rw e refl)
]

pub le-min_share : (c a b : Fraction) → c ≤ᶠ a → c ≤ᶠ b → c ≤ᶠ min_share a b
unfolding min_share
le-min_share c a b p q = ground arith

pub min_share-Positive : (a b : Fraction) → Positive a → Positive b → Positive (min_share a b)
unfolding min_share
min_share-Positive a b p q = ground arith

pub max_share-Positive : (a b : Fraction) → Positive a → Positive b → Positive (max_share a b)
unfolding max_share
max_share-Positive a b p q = ground arith
