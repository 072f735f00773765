-- ===== src/Variants/Best.antt =====
-- Which variant `select_variant` gives.
use mathlib.Core.List.{Mem, mem-cons_self, mem-cons_of_mem, Perm}
use mathlib.Core.List.Perm
use inference_x.Prelude.{
  ℕ, ◌≤◌, ◌≡◌, refl, sym, subst, inl, inr, leb→le, String, Bool, true, false, List, [], ◌∷◌, arith,
  Bool-cases, All,
}
use inference_x.Prelude.Sort.{IsSorted, sorted_by-perm, sorted_by-IsSorted}
use inference_x.Prelude.Members.{All-mem}
use inference_x.Schemas.{ModelEntry}
use inference_x.Registry.{ModelRegistry, variants}
use inference_x.Tiers.{VramTier}
use inference_x.Sizing.{Outside, bytes_per_param}
use inference_x.Variants.{
  Selection, selected, unknown_family, none_fits, at_least, sorted_by_precision, fits, first_fit,
  select_variant,
}

-- `m` is one of `ms`, it fits, and no other of them that fits has more bytes a parameter.
abbrev pub IsMostPrecise : Outside → (ModelEntry → Bool) → List ModelEntry → ModelEntry → Type 0
IsMostPrecise o fit ms m =
    Mem m ms
    × (fit m ≡ true)
    × ((b : ModelEntry)
        → Mem b ms
        → fit b ≡ true
        → bytes_per_param o b.quantization ≤ bytes_per_param o m.quantization)

-- What a selection from the variants `ms` says of them.
abbrev pub IsSelection : Outside → (ModelEntry → Bool) → List ModelEntry → Selection → Type 0
IsSelection o fit ms (selected name) = (m : ModelEntry) × (m.name ≡ name) × IsMostPrecise o fit ms m
IsSelection o fit ms unknown_family = ms ≡ []
IsSelection o fit ms none_fits = (b : ModelEntry) → Mem b ms → fit b ≡ false

-- The same by `All`, on a list where no earlier variant fits.
abbrev FirstFit : Outside → (ModelEntry → Bool) → List ModelEntry → Selection → Type 0
FirstFit o fit ms (selected name) =
    (m : ModelEntry) × (m.name ≡ name)
    × Mem m ms
    × (fit m ≡ true)
    × All (λ b. fit b ≡ true → at_least o m b ≡ true) ms
FirstFit o fit ms unknown_family = ⊥
FirstFit o fit ms none_fits = All (λ b. fit b ≡ false) ms

module _ (o : Outside) (fit : ModelEntry → Bool) where
  later :
      (m : ModelEntry) (ms : List ModelEntry) (s : Selection)
      → fit m ≡ false
      → FirstFit o fit ms s
      → FirstFit o fit (m ∷ ms) s
  later m ms (selected name) f (c, n, mem, t, h) =
      (c, n, mem-cons_of_mem m mem, t, ((λ t. ground (arith, f, t)), h))
  later m ms unknown_family f h = absurd h
  later m ms none_fits f h = (f, h)

  All-at_least :
      (m : ModelEntry) (ms : List ModelEntry)
      → All (λ b. at_least o m b ≡ true) ms
      → All (λ b. fit b ≡ true → at_least o m b ≡ true) ms
  All-at_least m [] h = tt
  All-at_least m (x ∷ xs) h = ((λ _. h.0), All-at_least m xs h.1)

  first_fit-FirstFit :
      (ms : List ModelEntry) → IsSorted (at_least o) ms → FirstFit o fit ms (first_fit fit ms)
  unfolding first_fit
  first_fit-FirstFit [] s = tt
  first_fit-FirstFit (m ∷ ms) s = elim (Bool-cases (fit m)) [
    | inl t ↦
        let e : first_fit fit (m ∷ ms) ≡ selected m.name = rw t refl in
        subst (FirstFit o fit (m ∷ ms)) (sym e)
          (m, refl, mem-cons_self, t, ((λ _. ground arith), All-at_least m ms s.0))
    | inr f ↦
        let e : first_fit fit (m ∷ ms) ≡ first_fit fit ms = rw f refl in
        subst (FirstFit o fit (m ∷ ms)) (sym e)
          (later m ms (first_fit fit ms) f (first_fit-FirstFit ms s.1))
  ]

  selection :
      (ms vs : List ModelEntry)
      → Perm ms vs
      → (s : Selection) → FirstFit o fit ms s
      → IsSelection o fit vs s
  selection ms vs p (selected name) (m, n, mem, t, h) = (
    m,
    n,
    (
      (Perm.mem_iff p).0 mem,
      t,
      λ b mb tb. leb→le (bytes_per_param o b.quantization) (bytes_per_param o m.quantization) (
          All-mem (λ v. fit v ≡ true → at_least o m v ≡ true) (λ v. hlevel) ms h
            ((Perm.mem_iff p).1 mb) tb),
    ),
  )
  selection ms vs p unknown_family h = absurd h
  selection ms vs p none_fits h =
      λ b mb. All-mem (λ v. fit v ≡ false) (λ v. hlevel) ms h ((Perm.mem_iff p).1 mb)

at_least_total : (o : Outside) (a b : ModelEntry) → at_least o a b ≡ false → at_least o b a ≡ true
at_least_total o a b h = ground arith

at_least_trans :
    (o : Outside) (a b c : ModelEntry)
    → at_least o a b ≡ true
    → at_least o b c ≡ true
    → at_least o a c ≡ true
at_least_trans o a b c h k = ground arith

-- The selection from a family, by the variants registered for it: a name that is returned is that of a
-- variant that fits, of the most bytes a parameter among those that fit; the error that none fits is
-- raised only if none does, and the error of an unknown family only if no variant is registered.
pub select_variant-IsSelection :
    (o : Outside) (family : String) (registry : ModelRegistry) (tier : VramTier) (available : ℕ)
    → IsSelection o
        (fits o tier available)
        (variants registry family)
        (select_variant o family registry tier available)
unfolding select_variant
select_variant-IsSelection o family registry tier available = of_variants (variants registry family)
  where
    of_variants :
        (vs : List ModelEntry)
        → IsSelection o (fits o tier available) vs (elim vs [
          | [] ↦ unknown_family
          | m ∷ ms ↦ first_fit (fits o tier available) (sorted_by_precision o (m ∷ ms))
        ])
    of_variants [] = refl
    of_variants (m ∷ ms) =
        let sorted = sorted_by_precision o (m ∷ ms) in
        selection o (fits o tier available) sorted (m ∷ ms) (sorted_by-perm (at_least o) (m ∷ ms))
          (first_fit (fits o tier available) sorted)
          (first_fit-FirstFit o (fits o tier available) sorted
            (sorted_by-IsSorted (at_least o) (at_least_total o) (at_least_trans o) (m ∷ ms)))
