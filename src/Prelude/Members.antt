-- ===== src/Prelude/Members.antt =====
-- Membership in comprehensions, and what holds of every element.
use mathlib.Core.Bool.{Bool, true}
use mathlib.Core.List.{List, [], ◌∷◌, Mem, mem-cons, mem-cons_self, mem-cons_of_mem, not-mem-nil}
use mathlib.Core.Logic.Or
use mathlib.Core.Logic.{inl, inr}
use mathlib.Core.Path.{◌≡◌, subst, sym}
use native.Mathlib.Omega.{arith}
use inference_x.Prelude.Lists.{All, keep}
use inference_x.Prelude.Tests.{Bool-cases}

module _ {ℓ} {A : Type ℓ} where
  pub mem-keep : (p : A → Bool) {a : A} (xs : List A) → Mem a xs → p a ≡ true → Mem a (keep p xs)
  mem-keep p [] m h = absurd (not-mem-nil m)
  mem-keep p {a} (x ∷ xs) m h = elim (Bool-cases (p x)) [
    | inl t ↦ rw t (
        Or.elim squash₁ (mem-cons.0 m) (λ e. rw e mem-cons_self)
          (λ n. mem-cons_of_mem x (mem-keep p xs n h)))
    | inr f ↦ rw f (
        Or.elim squash₁ (mem-cons.0 m) (λ e. absurd (ground (arith, subst (λ y. p y ≡ true) e h)))
          (λ n. mem-keep p xs n h))
  ]

  pub mem_of_mem-keep : (p : A → Bool) {a : A} (xs : List A) → Mem a (keep p xs) → Mem a xs
  mem_of_mem-keep p [] m = m
  mem_of_mem-keep p (x ∷ xs) m = elim (Bool-cases (p x)) [
    | inl t ↦
        Or.elim squash₁ (mem-cons.0 (rw t at m)) (λ e. rw e mem-cons_self)
          (λ n. mem-cons_of_mem x (mem_of_mem-keep p xs n))
    | inr f ↦ mem-cons_of_mem x (mem_of_mem-keep p xs (rw f at m))
  ]

  pub All-keep : (p : A → Bool) (xs : List A) → All (λ x. p x ≡ true) (keep p xs)
  All-keep p [] = tt
  All-keep p (x ∷ xs) = elim (Bool-cases (p x)) [
    | inl t ↦ rw t (t, All-keep p xs)
    | inr f ↦ rw f (All-keep p xs)
  ]

  -- What holds of all elements holds of each.
  pub All-mem {κ} :
      (P : A → Type κ)
      → ((a : A) → IsProp (P a))
      → (xs : List A) {a : A} → All P xs
      → Mem a xs
      → P a
  All-mem P prop [] h m = absurd (not-mem-nil m)
  All-mem P prop (x ∷ xs) {a} h m =
      Or.elim (prop a) (mem-cons.0 m) (λ e. subst P (sym e) h.0) (All-mem P prop xs h.1)
