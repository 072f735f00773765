-- ===== src/Metrics/Summary/Percentile.antt =====
-- The latency reported as the 95th percentile is one.
use inference_x.Prelude.{
  ℕ, zero, suc, ◌+◌, ◌-◌, ◌*◌, ◌/◌, ◌≤◌, ◌<◌, ◌≡◌, refl, sym, ap, subst, max, ◌∙◌, inl, inr, Bool,
  true, some, List, [], ◌∷◌, map, length, total, All, leb, get_elem?, arith, if◌then◌else◌,
  Bool-cases,
}
use mathlib.Core.Option.{some-injective}
use inference_x.Prelude.Sort.{sorted_by, insert_by, IsSorted, sorted_by-IsSorted}
use inference_x.Metrics.Storage.{RequestRecord, InMemoryStorage, all}
use inference_x.Metrics.Summary.{summary_of, summary, p95_idx}

abbrev one_if : Bool → ℕ
one_if b = if b then 1 else 0

-- How many elements pass a test.
abbrev pub count {ℓ} : {A : Type ℓ} → (A → Bool) → List A → ℕ
count p xs = total (λ x. one_if (p x)) xs

count-insert_by :
    (p : ℕ → Bool) (x : ℕ) (ys : List ℕ) → count p (insert_by leb x ys) ≡ one_if (p x) + count p ys
unfolding insert_by
count-insert_by p x [] = refl
count-insert_by p x (y ∷ ys) = elim (Bool-cases (leb x y)) [
  | inl b ↦ rw b refl
  | inr b ↦ rw b (omega (arith, count-insert_by p x ys))
]

count-sorted_by : (p : ℕ → Bool) (xs : List ℕ) → count p (sorted_by leb xs) ≡ count p xs
unfolding sorted_by
count-sorted_by p [] = refl
count-sorted_by p (x ∷ xs) =
    omega (arith, count-insert_by p x (sorted_by leb xs), count-sorted_by p xs)

count-All : (p : ℕ → Bool) (xs : List ℕ) → All (λ y. p y ≡ true) xs → count p xs ≡ length xs
count-All p [] h = refl
count-All p (x ∷ xs) h = rw (h.0) (omega (arith, count-All p xs h.1))

leb_refl : (n : ℕ) → leb n n ≡ true
leb_refl n = ground arith

get_elem?-All : (P : ℕ → Type 0) (xs : List ℕ) (i v : ℕ) → All P xs → get_elem? xs i ≡ some v → P v
get_elem?-All P [] i v h e = absurd (ground (arith, e))
get_elem?-All P (x ∷ xs) zero v h e = subst P (some-injective x v e) h.0
get_elem?-All P (x ∷ xs) (suc i) v h e = get_elem?-All P xs i v h.1 e

get_elem?-some : (xs : List ℕ) (i : ℕ) → i < length xs → (v : ℕ) × (get_elem? xs i ≡ some v)
get_elem?-some [] i h = absurd (omega arith)
get_elem?-some (x ∷ xs) zero h = (x, refl)
get_elem?-some (x ∷ xs) (suc i) h = get_elem?-some xs i (omega arith)

-- In a sorted list the element at a place has that many and itself at or below it, and the rest above.
below :
    (xs : List ℕ) (i v : ℕ)
    → IsSorted leb xs
    → get_elem? xs i ≡ some v
    → i + 1 ≤ count (λ u. leb u v) xs
below [] i v h e = absurd (ground (arith, e))
below (x ∷ xs) zero v h e =
    let eq : leb x v ≡ true = subst (λ u. leb x u ≡ true) (some-injective x v e) (leb_refl x) in
    rw eq (omega arith)
below (x ∷ xs) (suc i) v h e =
    let eq : leb x v ≡ true = get_elem?-All (λ u. leb x u ≡ true) xs i v h.0 e in
    rw eq (omega (arith, below xs i v h.1 e))

above :
    (xs : List ℕ) (i v : ℕ)
    → IsSorted leb xs
    → get_elem? xs i ≡ some v
    → length xs ≤ i + count (λ u. leb v u) xs
above [] i v h e = absurd (ground (arith, e))
above (x ∷ xs) zero v h e =
    let eq : leb v x ≡ true = subst (λ u. leb u x ≡ true) (some-injective x v e) (leb_refl x) in
    let later : All (λ u. leb v u ≡ true) xs =
      subst (λ w. All (λ u. leb w u ≡ true) xs) (some-injective x v e) h.0 in
    rw eq (omega (arith, count-All (leb v) xs later))
above (x ∷ xs) (suc i) v h e = omega (arith, above xs i v h.1 e)

count-map :
    {A : Type 0} (f : A → ℕ) (p : ℕ → Bool) (xs : List A)
    → count p (map f xs) ≡ count (λ x. p (f x)) xs
count-map f p [] = refl
count-map f p (x ∷ xs) = ap (λ k. one_if (p (f x)) + k) (count-map f p xs)

length-count : {A : Type 0} (xs : List A) → length xs ≡ count (λ x. true) xs
length-count [] = refl
length-count (x ∷ xs) = omega (arith, length-count xs)

length-latencies :
    (rs : List RequestRecord) → length (sorted_by leb (map (λ q. q.latency) rs)) ≡ length rs
length-latencies rs =
    length-count (sorted_by leb (map (λ q. q.latency) rs))
    ∙ count-sorted_by (λ x. true) (map (λ q. q.latency) rs)
    ∙ count-map (λ q. q.latency) (λ x. true) rs
    ∙ sym (length-count rs)

-- How many of the records pass a test of their latency.
abbrev pub with_latency : (ℕ → Bool) → List RequestRecord → ℕ
with_latency p rs = count (λ r. p (r.latency)) rs

with_latency-sorted :
    (p : ℕ → Bool) (rs : List RequestRecord)
    → count p (sorted_by leb (map (λ q. q.latency) rs)) ≡ with_latency p rs
with_latency-sorted p rs =
    count-sorted_by p (map (λ q. q.latency) rs) ∙ count-map (λ q. q.latency) p rs

latencies-IsSorted :
    (rs : List RequestRecord) → IsSorted leb (sorted_by leb (map (λ q. q.latency) rs))
latencies-IsSorted rs =
    sorted_by-IsSorted leb (λ x y h. ground arith) (λ x y z h h'. ground arith)
      (map (λ q. q.latency) rs)

ranked :
    (rs : List RequestRecord) (i : ℕ)
    → i < length rs
    → (v : ℕ) × (get_elem? (sorted_by leb (map (λ q. q.latency) rs)) i ≡ some v)
      × (i + 1 ≤ with_latency (λ l. leb l v) rs)
      × (length rs ≤ i + with_latency (leb v) rs)
ranked rs i h =
    let sorted = sorted_by leb (map (λ q. q.latency) rs) in
    let (v, e) = get_elem?-some sorted i (omega (arith, length-latencies rs)) in
    (
      v,
      e,
      omega (
        arith,
        below sorted i v (latencies-IsSorted rs) e,
        with_latency-sorted (λ l. leb l v) rs,
      ),
      omega (
        arith,
        above sorted i v (latencies-IsSorted rs) e,
        with_latency-sorted (leb v) rs,
        length-latencies rs,
      ),
    )

p95_latency-place :
    (rs : List RequestRecord)
    → 1 ≤ length rs
    → (summary_of rs).p95_latency
      ≡ get_elem? (sorted_by leb (map (λ q. q.latency) rs)) (length rs * 95 / 100 - 1)
unfolding summary_of p95_idx
p95_latency-place [] h = absurd (omega arith)
p95_latency-place (r ∷ rs) h =
    ap (λ n. get_elem? (sorted_by leb (map (λ q. q.latency) (r ∷ rs))) (n * 95 / 100 - 1))
      (length-latencies (r ∷ rs))

-- When at least one record is held, of `n`, the summary reports a 95th percentile `v`: at least
-- `n * 95 / 100` records, and at least one, have a latency of at most `v`, and more than
-- `n - n * 95 / 100` records, or all, have one of at least `v`.
pub summary-p95 :
    (s : InMemoryStorage)
    → 1 ≤ length (all s)
    → (v : ℕ) × ((summary s).p95_latency ≡ some v)
      × (max 1 (length (all s) * 95 / 100) ≤ with_latency (λ l. leb l v) (all s))
      × (length (all s) ≤ (length (all s) * 95 / 100 - 1) + with_latency (leb v) (all s))
unfolding summary
summary-p95 s h =
    let n = length (all s) in
    let (v, e, low, high) = ranked (all s) (n * 95 / 100 - 1) (omega arith) in
    (v, p95_latency-place (all s) h ∙ e, omega arith, high)
