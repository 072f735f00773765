-- ===== src/Benchmarks/Latest.antt =====
-- The selection gives each model its latest result of the suite.
use mathlib.Core.List.{Mem, mem-cons_self, mem-cons_of_mem}
use inference_x.Prelude.{
  ◌≤◌, ◌≡◌, ◌⊎◌, refl, sym, subst, ap, ◌∙◌, inl, inr, String, true, false, Option, none, some, List,
  [], ◌∷◌, foldl, All, str_eq, eq_iff, arith, if◌then◌else◌, Bool-cases,
}
use inference_x.Prelude.Dict
use inference_x.Prelude.Dict.{Dict}
use inference_x.Benchmarks.{BenchmarkResult, replaces, update, latest_per_model}

-- Of the results of a model, the first that no other is later than.
abbrev pub latest_of :
    String → Option BenchmarkResult → List BenchmarkResult → Option BenchmarkResult
latest_of name found [] = found
latest_of name found (r ∷ rs) =
    latest_of name
      (if str_eq (r.model_name) name then (if replaces r found then some r else found) else found)
      rs

get-update :
    (d : Dict BenchmarkResult) (r : BenchmarkResult) (name : String)
    → Dict.get (update d r) name ≡ (
        if str_eq (r.model_name) name
        then (if replaces r (Dict.get d name) then some r else Dict.get d name)
        else Dict.get d name)
get-update d r name = elim (Bool-cases (str_eq (r.model_name) name)) [
  | inl t ↦
      let same : r.model_name ≡ name = (eq_iff (r.model_name) name).0 t in
      ground (arith, t, Dict.get-put d (r.model_name) name r, ap (λ n. Dict.get d n) same)
  | inr f ↦ ground (arith, f, Dict.get-put d (r.model_name) name r)
]

get-foldl :
    (rs : List BenchmarkResult) (d : Dict BenchmarkResult) (name : String)
    → Dict.get (foldl update d rs) name ≡ latest_of name (Dict.get d name) rs
get-foldl [] d name = refl
get-foldl (r ∷ rs) d name =
    get-foldl rs (update d r) name ∙ ap (λ found. latest_of name found rs) (get-update d r name)

abbrev Covers : Option BenchmarkResult → BenchmarkResult → Type 0
Covers none r = ⊥
Covers (some b) r = r.timestamp ≤ b.timestamp

-- `o` is one of the results and of the model, and no result of the model is later; it is none only if
-- no result is of the model.
abbrev pub IsLatest : String → List BenchmarkResult → Option BenchmarkResult → Type 0
IsLatest name rs none = All (λ r. str_eq (r.model_name) name ≡ false) rs
IsLatest name rs (some b) =
    Mem b rs
    × (str_eq (b.model_name) name ≡ true)
    × All (λ r. (str_eq (r.model_name) name ≡ false) ⊎ (r.timestamp ≤ b.timestamp)) rs

module _ (name : String) where
  abbrev next : Option BenchmarkResult → BenchmarkResult → Option BenchmarkResult
  next found r =
      if str_eq (r.model_name) name then (if replaces r found then some r else found) else found

  next-Covers :
      (found : Option BenchmarkResult) (r b : BenchmarkResult)
      → Covers found b
      → Covers (next found r) b
  next-Covers none r b h = absurd h
  next-Covers (some x) r b h = ground arith

  next_self :
      (found : Option BenchmarkResult) (r : BenchmarkResult)
      → (str_eq (r.model_name) name ≡ false) ⊎ Covers (next found r) r
  next_self none r = ground arith
  next_self (some x) r = ground arith

  latest_of-Covers :
      (found : Option BenchmarkResult) (rs : List BenchmarkResult) (b : BenchmarkResult)
      → Covers found b
      → Covers (latest_of name found rs) b
  latest_of-Covers found [] b h = h
  latest_of-Covers found (r ∷ rs) b h =
      latest_of-Covers (next found r) rs b (next-Covers found r b h)

  latest_of-All :
      (found : Option BenchmarkResult) (rs : List BenchmarkResult)
      → All (λ r. (str_eq (r.model_name) name ≡ false) ⊎ Covers (latest_of name found rs) r) rs
  latest_of-All found [] = tt
  latest_of-All found (r ∷ rs) = (first (next_self found r), latest_of-All (next found r) rs)
    where
      first :
          (str_eq (r.model_name) name ≡ false) ⊎ Covers (next found r) r
          → (str_eq (r.model_name) name ≡ false) ⊎ Covers (latest_of name (next found r) rs) r
      first (inl n) = inl n
      first (inr c) = inr (latest_of-Covers (next found r) rs r c)

  -- What is found is what was, or one of the results of the model.
  abbrev From : Option BenchmarkResult → List BenchmarkResult → Option BenchmarkResult → Type 0
  From found rs none = Unit
  From found rs (some b) = (found ≡ some b) ⊎ (Mem b rs × (str_eq (b.model_name) name ≡ true))

  next-From :
      (found : Option BenchmarkResult) (r b : BenchmarkResult)
      → next found r ≡ some b
      → (found ≡ some b) ⊎ ((r ≡ b) × (str_eq (b.model_name) name ≡ true))
  next-From found r b e = ground arith

  From-cons :
      (found : Option BenchmarkResult) (r : BenchmarkResult) (rs : List BenchmarkResult)
      (o : Option BenchmarkResult)
      → From (next found r) rs o
      → From found (r ∷ rs) o
  From-cons found r rs none h = tt
  From-cons found r rs (some b) (inl e) = elim (next-From found r b e) [
    | inl was ↦ inl was
    | inr (same, named) ↦ inr (subst (λ x. Mem x (r ∷ rs)) same mem-cons_self, named)
  ]
  From-cons found r rs (some b) (inr (m, named)) = inr (mem-cons_of_mem r m, named)

  latest_of-From :
      (found : Option BenchmarkResult) (rs : List BenchmarkResult)
      → From found rs (latest_of name found rs)
  latest_of-From none [] = tt
  latest_of-From (some b) [] = inl refl
  latest_of-From found (r ∷ rs) =
      From-cons found r rs (latest_of name (next found r) rs) (latest_of-From (next found r) rs)

  latest :
      (rs : List BenchmarkResult) (o : Option BenchmarkResult)
      → From none rs o
      → All (λ r. (str_eq (r.model_name) name ≡ false) ⊎ Covers o r) rs
      → IsLatest name rs o
  latest rs none from h = none_of rs h
    where
      none_of :
          (rs : List BenchmarkResult)
          → All (λ r. (str_eq (r.model_name) name ≡ false) ⊎ ⊥) rs
          → All (λ r. str_eq (r.model_name) name ≡ false) rs
      none_of [] h = tt
      none_of (r ∷ rs) (inl n, h) = (n, none_of rs h)
      none_of (r ∷ rs) (inr c, h) = absurd c
  latest rs (some b) (inl e) h = absurd (ground (arith, e))
  latest rs (some b) (inr (m, named)) h = (m, named, h)

-- The dict of latest results has for each model one of its results that no other is later than, and
-- has no entry exactly for the models without a result.
pub latest_per_model-IsLatest :
    (results : List BenchmarkResult) (name : String)
    → IsLatest name results (Dict.get (latest_per_model results) name)
unfolding latest_per_model Dict.get
latest_per_model-IsLatest results name =
    subst (IsLatest name results) (sym (get-foldl results [] name)) (
      latest name results (latest_of name none results) (latest_of-From name none results)
        (latest_of-All name none results))
