-- ===== src/Metrics/Storage/Laws.antt =====
-- The buffer holds the latest records, in order.
use mathlib.Core.List.{append-nil, append_assoc}
use inference_x.Prelude.{
  ℕ, zero, suc, ◌+◌, ◌-◌, ◌≤◌, ◌≡◌, refl, sym, ap, ◌∙◌, List, [], ◌∷◌, ◌++◌, length, length-append,
  drop, ltb, arith, if◌then◌else◌,
}
use inference_x.Metrics.Storage.{
  RequestRecord, InMemoryStorage, create, append, all, recent, append_all,
}

-- The last `n` of a list.
abbrev pub last {ℓ} : {A : Type ℓ} → ℕ → List A → List A
last n xs = drop (length xs - n) xs

suc-add : (m n : ℕ) → suc (m + n) ≡ suc m + n
suc-add m n = omega arith

module _ {A : Type 0} where
  drop-append : (n : ℕ) (xs ys : List A) → n ≤ length xs → drop n (xs ++ ys) ≡ drop n xs ++ ys
  drop-append zero xs ys h = refl
  drop-append (suc n) [] ys h = absurd (omega arith)
  drop-append (suc n) (x ∷ xs) ys h = drop-append n xs ys (omega arith)

  drop-nil : (n : ℕ) → drop {A = A} n [] ≡ []
  drop-nil zero = refl
  drop-nil (suc n) = refl

  drop-drop : (n m : ℕ) (xs : List A) → drop n (drop m xs) ≡ drop (m + n) xs
  drop-drop n zero xs = ap (λ k. drop k xs) (omega arith)
  drop-drop n (suc m) [] = drop-nil n ∙ sym (drop-nil (suc m + n))
  drop-drop n (suc m) (x ∷ xs) = drop-drop n m xs ∙ ap (λ k. drop k (x ∷ xs)) (suc-add m n)

  pub length-drop : (n : ℕ) (xs : List A) → length (drop n xs) ≡ length xs - n
  length-drop zero xs = omega arith
  length-drop (suc n) [] = omega arith
  length-drop (suc n) (x ∷ xs) = omega (arith, length-drop n xs)

  last-snoc_length :
      (m : ℕ) (xs : List A) (x : A)
      → length (last m xs ++ x ∷ []) ≡ (length xs - (length xs - m)) + 1
  last-snoc_length m xs x =
      length-append (last m xs) (x ∷ []) ∙ ap (λ k. k + 1) (length-drop (length xs - m) xs)

  -- A record more: the latest `m` change by one.
  last-snoc :
      (m : ℕ) (xs : List A) (x : A)
      → (if ltb m (length (last m xs ++ x ∷ []))
          then drop 1 (last m xs ++ x ∷ [])
          else last m xs ++ x ∷ [])
        ≡ last m (xs ++ x ∷ [])
  last-snoc m xs x = ground (
    arith,
    last-snoc_length m xs x,
    drop-append (length xs - m) xs (x ∷ []),
    drop-drop 1 (length xs - m) (xs ++ x ∷ []),
    length-append xs (x ∷ []),
  )

append_all-last :
    (m : ℕ) (xs rs : List RequestRecord)
    → (append_all (record { max_records = m; buf = last m xs }) rs).buf ≡ last m (xs ++ rs)
unfolding append
append_all-last m xs [] = ap (last m) (sym (append-nil xs))
append_all-last m xs (r ∷ rs) =
    ap (λ b. (append_all (record { max_records = m; buf = b }) rs).buf) (last-snoc m xs r)
    ∙ append_all-last m (xs ++ r ∷ []) rs
    ∙ ap (last m) (append_assoc xs (r ∷ []) rs)

-- The buffer, created for `m` records, holds after any sequence of records the latest `m` of them in
-- the order in which they came (all of them as long as there are at most `m`).
pub append_all-create :
    (m : ℕ) (rs : List RequestRecord) → all (append_all (create m) rs) ≡ last m rs
unfolding all create
append_all-create m rs =
    ap (λ b. (append_all (record { max_records = m; buf = b }) rs).buf) (sym (drop-nil (0 - m)))
    ∙ append_all-last m [] rs

-- For n at least 1, `recent n` is the latest `n` records held, or all of them when there are fewer.
pub recent-last : (s : InMemoryStorage) (n : ℕ) → 1 ≤ n → recent s n ≡ last n (all s)
unfolding recent all
recent-last s n h = ground arith

-- `recent 0` is not empty: it gives every record held.
pub recent-zero : (s : InMemoryStorage) → recent s 0 ≡ all s
unfolding recent all
recent-zero s = ground arith
