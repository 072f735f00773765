-- ===== src/Tiers/Resolve.antt =====
-- Which tier `get_vram_tier` chooses.
use mathlib.Core.List.{Mem, mem-cons_self, mem-cons_of_mem, not-mem-nil, Perm}
use mathlib.Core.List.Perm
use native.Mathlib.Bridge.{le_prop}
use inference_x.Prelude.{
  ℕ, ◌≤◌, ◌<◌, ◌≡◌, refl, sym, subst, ◌≢◌, ◌⊎◌, inl, inr, true, false, some, List, [], ◌∷◌, arith,
  leb, Bool-cases, All, leb→le, leb-false,
}
use inference_x.Prelude.Sort.{sorted_by, IsSorted, sorted_by-perm, sorted_by-IsSorted}
use inference_x.Prelude.Members.{All-mem}
use inference_x.Tiers.{VramTier, ok, floor_le, climb, resolve_tier, get_vram_tier}

abbrev pub HasBestFloor : ℕ → List VramTier → VramTier → Type 0
HasBestFloor vram tiers t =
    ((t.min_vram ≤ vram)
      × ((u : VramTier) → Mem u tiers → u.min_vram ≤ vram → u.min_vram ≤ t.min_vram))
    ⊎ ((u : VramTier) → Mem u tiers → (vram < u.min_vram) × (t.min_vram ≤ u.min_vram))

-- `t` is one of the tiers: of those whose floor the GPU clears, the one with the highest floor; if it
-- clears none, the one with the lowest floor of all.
abbrev pub IsBest : ℕ → List VramTier → VramTier → Type 0
IsBest vram tiers t = Mem t tiers × HasBestFloor vram tiers t

climb-Mem : (vram : ℕ) (m : VramTier) (ts : List VramTier) → Mem (climb vram m ts) (m ∷ ts)
unfolding climb
climb-Mem vram m [] = mem-cons_self
climb-Mem vram m (t ∷ ts) = elim (Bool-cases (leb t.min_vram vram)) [
  | inl c ↦
      let e : climb vram m (t ∷ ts) ≡ climb vram t ts = rw c in
      subst (λ x. Mem x (m ∷ t ∷ ts)) (sym e) (mem-cons_of_mem m (climb-Mem vram t ts))
  | inr c ↦
      let e : climb vram m (t ∷ ts) ≡ m = rw c in
      subst (λ x. Mem x (m ∷ t ∷ ts)) (sym e) mem-cons_self
]

-- What the loop returns from a tier that the GPU clears.
abbrev Climbed : ℕ → VramTier → List VramTier → VramTier → Type 0
Climbed vram m ts t =
    (t.min_vram ≤ vram)
    × (m.min_vram ≤ t.min_vram)
    × All (λ u. u.min_vram ≤ vram → u.min_vram ≤ t.min_vram) ts

above :
    (vram : ℕ) (t m : VramTier) (ts : List VramTier)
    → (leb t.min_vram vram ≡ false)
    → All (λ u. floor_le t u ≡ true) ts
    → All (λ u. u.min_vram ≤ vram → u.min_vram ≤ m.min_vram) ts
above vram t m [] c h = tt
above vram t m (u ∷ us) c h = (
  λ l. absurd (omega (arith, leb→le t.min_vram u.min_vram h.0, leb-false t.min_vram vram c)),
  above vram t m us c h.1,
)

climb-Climbed :
    (vram : ℕ) (m : VramTier) (ts : List VramTier)
    → m.min_vram ≤ vram
    → All (λ u. floor_le m u ≡ true) ts
    → IsSorted floor_le ts
    → Climbed vram m ts (climb vram m ts)
unfolding climb
climb-Climbed vram m [] h f s = (h, omega arith, tt)
climb-Climbed vram m (t ∷ ts) h f s = elim (Bool-cases (leb t.min_vram vram)) [
  | inl c ↦
      let ih = climb-Climbed vram t ts (leb→le t.min_vram vram c) s.0 s.1 in
      let e : climb vram m (t ∷ ts) ≡ climb vram t ts = rw c in
      subst (Climbed vram m (t ∷ ts)) (sym e)
        (ih.0, omega (arith, leb→le m.min_vram t.min_vram f.0, ih.1), ((λ _. ih.1), ih.2))
  | inr c ↦
      let e : climb vram m (t ∷ ts) ≡ m = rw c in
      subst (Climbed vram m (t ∷ ts)) (sym e) (
        h,
        omega arith,
        ((λ l. absurd (omega (arith, leb-false t.min_vram vram c))), above vram t m ts c s.0),
      )
]

resolve_sorted :
    (vram : ℕ) (t : VramTier) (ts : List VramTier)
    → IsSorted floor_le (t ∷ ts)
    → HasBestFloor vram (t ∷ ts) (climb vram t (t ∷ ts))
unfolding climb
resolve_sorted vram t ts s = elim (Bool-cases (leb t.min_vram vram)) [
  | inl c ↦
      let r = climb-Climbed vram t ts (leb→le t.min_vram vram c) s.0 s.1 in
      let e : climb vram t (t ∷ ts) ≡ climb vram t ts = rw c in
      subst (HasBestFloor vram (t ∷ ts)) (sym e) (
        inl (
          r.0,
          λ u m.
              All-mem (λ v. v.min_vram ≤ vram → v.min_vram ≤ (climb vram t ts).min_vram)
                (λ v. hlevel le_prop) (t ∷ ts) ((λ _. r.1), r.2) m,
        ))
  | inr c ↦
      let e : climb vram t (t ∷ ts) ≡ t = rw c in
      subst (HasBestFloor vram (t ∷ ts)) (sym e) (
        inr λ u m.
          let low =
            leb→le t.min_vram u.min_vram
              (All-mem (λ v. floor_le t v ≡ true) (λ v. hlevel) (t ∷ ts) (ground arith, s.0) m) in
          (omega (arith, low, leb-false t.min_vram vram c), low))
]

floor_total : (a b : VramTier) → floor_le a b ≡ false → floor_le b a ≡ true
floor_total a b h = ground arith

floor_trans : (a b c : VramTier) → floor_le a b ≡ true → floor_le b c ≡ true → floor_le a c ≡ true
floor_trans a b c h k = ground arith

IsBest-perm :
    (vram : ℕ) {us ts : List VramTier} (t : VramTier)
    → Perm us ts
    → IsBest vram us t
    → IsBest vram ts t
IsBest-perm vram t p (m, inl (c, h)) =
    ((Perm.mem_iff p).0 m, inl (c, λ u n. h u ((Perm.mem_iff p).1 n)))
IsBest-perm vram t p (m, inr h) = ((Perm.mem_iff p).0 m, inr (λ u n. h u ((Perm.mem_iff p).1 n)))

resolved-Mem : (vram : ℕ) (t : VramTier) (ts : List VramTier) → Mem (climb vram t (t ∷ ts)) (t ∷ ts)
unfolding climb
resolved-Mem vram t ts = elim (Bool-cases (leb t.min_vram vram)) [
  | inl c ↦
      let e : climb vram t (t ∷ ts) ≡ climb vram t ts = rw c in
      subst (λ x. Mem x (t ∷ ts)) (sym e) (climb-Mem vram t ts)
  | inr c ↦
      let e : climb vram t (t ∷ ts) ≡ t = rw c in subst (λ x. Mem x (t ∷ ts)) (sym e) mem-cons_self
]

resolve_loaded :
    (vram : ℕ) (ts : List VramTier)
    → IsSorted floor_le ts
    → ts ≢ []
    → (t : VramTier) × (resolve_tier vram ts ≡ ok t) × IsBest vram ts t
unfolding resolve_tier
resolve_loaded vram [] s h = absurd (h refl)
resolve_loaded vram (t ∷ ts) s h =
    (climb vram t (t ∷ ts), refl, (resolved-Mem vram t ts, resolve_sorted vram t ts s))

sorted-ne-nil : (t : VramTier) (ts : List VramTier) → sorted_by floor_le (t ∷ ts) ≢ []
sorted-ne-nil t ts e =
    not-mem-nil
      (subst (Mem t) e ((Perm.mem_iff (sorted_by-perm floor_le (t ∷ ts))).1 mem-cons_self))

-- From a tiers file with at least one tier, in any order, the resolution succeeds: it gives one of
-- the file's tiers, the one with the highest floor that the GPU clears, or the one with the lowest floor
-- if it clears none.
pub get_vram_tier-IsBest :
    (vram : ℕ) (t : VramTier) (ts : List VramTier)
    → (u : VramTier) × (get_vram_tier vram (some (t ∷ ts)) ≡ ok u) × IsBest vram (t ∷ ts) u
unfolding get_vram_tier
get_vram_tier-IsBest vram t ts =
    let sorted = sorted_by-IsSorted floor_le floor_total floor_trans (t ∷ ts) in
    let (u, e, best) =
      resolve_loaded vram (sorted_by floor_le (t ∷ ts)) sorted (sorted-ne-nil t ts) in
    (u, e, IsBest-perm vram u (sorted_by-perm floor_le (t ∷ ts)) best)
