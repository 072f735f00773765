-- ===== src/Prelude/Sort.antt =====
-- Python's stable `sorted`, by a Boolean order on the elements: `before x y` says that `x` may stand
-- before `y`. An element keeps its place among those that it ties with.
use mathlib.Core.List.{Perm}
use mathlib.Core.List.Perm
use mathlib.Core.Path.{◌≡◌}
use mathlib.Core.Bool.{Bool, true, false}
use mathlib.Core.List.{List, [], ◌∷◌}
use mathlib.Core.Logic.{inl, inr}
use inference_x.Prelude.Tests.{if◌then◌else◌, Bool-cases}
use inference_x.Prelude.Lists.{All}

module _ {ℓ} {A : Type ℓ} (before : A → A → Bool) where
  unfoldable pub insert_by : A → List A → List A
  insert_by x [] = x ∷ []
  insert_by x (y ∷ ys) = let rest = insert_by x ys in if before x y then x ∷ y ∷ ys else y ∷ rest

  unfoldable pub sorted_by : List A → List A
  unfolding insert_by
  sorted_by [] = []
  sorted_by (x ∷ xs) = insert_by x (sorted_by xs)

  pub All-insert_by {κ} :
      (P : A → Type κ) (x : A) (ys : List A) → P x → All P ys → All P (insert_by x ys)
  unfolding insert_by
  All-insert_by P x [] p h = (p, tt)
  All-insert_by P x (y ∷ ys) p h = elim (Bool-cases (before x y)) [
    | inl b ↦ rw b (p, h)
    | inr b ↦ rw b (h.0, All-insert_by P x ys p h.1)
  ]

  insert_by-perm : (x : A) (ys : List A) → Perm (insert_by x ys) (x ∷ ys)
  unfolding insert_by
  insert_by-perm x [] = Perm.refl (x ∷ [])
  insert_by-perm x (y ∷ ys) = elim (Bool-cases (before x y)) [
    | inl b ↦ rw b (Perm.refl (x ∷ y ∷ ys))
    | inr b ↦ rw b (Perm.trans (Perm.cons y (insert_by-perm x ys)) (Perm.swap x y ys))
  ]

  pub sorted_by-perm : (xs : List A) → Perm (sorted_by xs) xs
  unfolding sorted_by
  sorted_by-perm [] = Perm.refl []
  sorted_by-perm (x ∷ xs) =
      Perm.trans (insert_by-perm x (sorted_by xs)) (Perm.cons x (sorted_by-perm xs))

  -- Each element may stand before all that follow it.
  abbrev pub IsSorted : List A → Type ℓ
  IsSorted [] = Unit
  IsSorted (x ∷ xs) = All (λ y. before x y ≡ true) xs × IsSorted xs

  All-map {κ κ'} :
      (P : A → Type κ) (Q : A → Type κ') (xs : List A) → ((a : A) → P a → Q a) → All P xs → All Q xs
  All-map P Q [] f h = tt
  All-map P Q (x ∷ xs) f h = (f x h.0, All-map P Q xs f h.1)

  module _ (total : (x y : A) → before x y ≡ false → before y x ≡ true)
      (trans : (x y z : A) → before x y ≡ true → before y z ≡ true → before x z ≡ true) where
    insert_by-IsSorted : (x : A) (ys : List A) → IsSorted ys → IsSorted (insert_by x ys)
    unfolding insert_by
    insert_by-IsSorted x [] h = (tt, tt)
    insert_by-IsSorted x (y ∷ ys) h = elim (Bool-cases (before x y)) [
      | inl b ↦ rw b ((b, All-map _ _ ys (λ z. trans x y z b) h.0), h)
      | inr b ↦ rw b (All-insert_by _ x ys (total x y b) h.0, insert_by-IsSorted x ys h.1)
    ]

    pub sorted_by-IsSorted : (xs : List A) → IsSorted (sorted_by xs)
    unfolding sorted_by
    sorted_by-IsSorted [] = tt
    sorted_by-IsSorted (x ∷ xs) = insert_by-IsSorted x (sorted_by xs) (sorted_by-IsSorted xs)
