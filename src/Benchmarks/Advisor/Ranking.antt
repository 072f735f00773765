-- ===== src/Benchmarks/Advisor/Ranking.antt =====
-- The ranking lists every eligible result once, by falling score, and scores are percentages.
use mathlib.Core.List.{Perm}
use native.Mathlib.Nat.{mul-le-mul_left, mul-le-mul_right, mul-pos}
use inference_x.Prelude.{
  ℕ, ◌+◌, ◌*◌, ◌≤◌, ◌<◌, ◌≡◌, refl, inl, inr, String, true, false, Option, List, [], ◌∷◌, map, keep,
  arith, ◌==◌, Bool-cases, All,
}
use inference_x.Prelude.Dict.{Dict}
use inference_x.Prelude.Round.{nearest-le}
use inference_x.Prelude.Sort.{
  sorted_by, All-insert_by, sorted_by-perm, sorted_by-IsSorted, IsSorted,
}
use inference_x.Schemas.{Fraction}
use inference_x.Sizing.Share.{
  ◌≤ᶠ◌, Positive, le-max_share, max_share-Positive, le-trans, le-max_share_left,
}
use inference_x.Benchmarks.{HardwareProfile, BenchmarkResult}
use inference_x.Benchmarks.Advisor.{
  AdvisorResult, safe_div, warm, mean, warm_ttft_ms, review, max_throughput, max_ttft,
  viable_by_vram, headroom_share, rest_of, weighted, evaluate, scores_before, rank,
}

-- A share of at most one.
abbrev Proper : Fraction → Type 0
Proper x = (0 < x.den) × (x.num ≤ x.den)

weighted-le : (x y z : Fraction) → Proper x → Proper y → Proper z → weighted x y z ≤ 10000
unfolding weighted
weighted-le x y z px py pz =
    let d = x.den * y.den * z.den in
    let a : x.num * y.den * z.den ≤ d = mul-le-mul_right z.den (mul-le-mul_right y.den px.1) in
    let b : x.den * y.num * z.den ≤ d = mul-le-mul_right z.den (mul-le-mul_left x.den py.1) in
    let c : x.den * y.den * z.num ≤ d = mul-le-mul_left (x.den * y.den) pz.1 in
    let positive : 0 < d = mul-pos (mul-pos px.0 py.0) pz.0 in
    nearest-le
      (10000
        * (4 * (x.num * y.den * z.den) + 3 * (x.den * y.num * z.den) + 2 * (x.den * y.den * z.num)))
      (9 * d) 10000 (omega (arith, positive)) (omega (arith, a, b, c))

safe_div-Proper : (a b : Fraction) → Positive a → a ≤ᶠ b → Proper (safe_div a b)
unfolding safe_div
safe_div-Proper a b p h = elim (Bool-cases (b.num == 0)) [
  | inl e ↦ rw e (omega arith, omega arith)
  | inr e ↦ let top : 0 < b.num = ground (arith, e) in rw e (mul-pos p top, grind (arith, h))
]

rest_of-Proper : (x : Fraction) → Proper x → Proper (rest_of x)
rest_of-Proper x p = (p.0, omega arith)

warm-Positive : (ts : List ℕ) → Positive (mean ts)
warm-Positive [] = omega arith
warm-Positive (t ∷ ts) = ground arith

warm_ttft_ms-Positive : (r : BenchmarkResult) → Positive (warm_ttft_ms r)
unfolding warm_ttft_ms
warm_ttft_ms-Positive r = warm-Positive (warm r.prompt_ttfts)

max_ttft-Positive : (rs : List BenchmarkResult) → Positive (max_ttft rs)
max_ttft-Positive [] = omega arith
max_ttft-Positive (r ∷ rs) =
    max_share-Positive (max_ttft rs) (warm_ttft_ms r) (max_ttft-Positive rs)
      (warm_ttft_ms-Positive r)

headroom_share-Proper :
    (hardware : HardwareProfile) (r : BenchmarkResult)
    → viable_by_vram hardware r ≡ true
    → Proper (headroom_share hardware r)
unfolding viable_by_vram headroom_share
headroom_share-Proper hardware r h = ground (arith, h)

-- Both of a result's measurements are at most the best and the worst.
abbrev Bounded : ℕ → Fraction → BenchmarkResult → Type 0
Bounded top_throughput top_ttft r =
    (r.mean_throughput_tps ≤ top_throughput) × (warm_ttft_ms r ≤ᶠ top_ttft)

-- An evaluation that is a percentage, and 0 for what does not fit.
abbrev pub Scored : AdvisorResult → Type 0
Scored e = (e.score ≤ 10000) × (e.viable ≡ false → e.score ≡ 0)

evaluate-Scored :
    (hardware : HardwareProfile) (top_throughput : ℕ) (top_ttft : Fraction) (r : BenchmarkResult)
    → Bounded top_throughput top_ttft r
    → Scored (evaluate hardware top_throughput top_ttft r)
unfolding evaluate
evaluate-Scored hardware top_throughput top_ttft r b =
    elim (Bool-cases (viable_by_vram hardware r)) [
      | inr e ↦ rw e (omega arith, λ f. refl)
      | inl e ↦
          let tp : Fraction = record { num = r.mean_throughput_tps; den = 1 } in
          let top : Fraction = record { num = top_throughput; den = 1 } in
          rw e (
            weighted-le (safe_div tp top) (rest_of (safe_div (warm_ttft_ms r) top_ttft))
                (headroom_share hardware r)
                (safe_div-Proper tp top (omega arith) (omega (arith, b.0)))
                (rest_of-Proper (safe_div (warm_ttft_ms r) top_ttft)
                  (safe_div-Proper (warm_ttft_ms r) top_ttft (warm_ttft_ms-Positive r) b.1))
                (headroom_share-Proper hardware r e),
            λ f. absurd (cc f),
          )
    ]

widen :
    (p q : ℕ) (s t : Fraction)
    → p ≤ q
    → Positive s
    → s ≤ᶠ t
    → (rs : List BenchmarkResult) → All (Bounded p s) rs
    → All (Bounded q t) rs
widen p q s t le pos sh [] h = tt
widen p q s t le pos sh (r ∷ rs) h = (
  (omega (arith, h.0.0, le), le-trans (warm_ttft_ms r) s t pos h.0.1 sh),
  widen p q s t le pos sh rs h.1,
)

all-Bounded : (rs : List BenchmarkResult) → All (Bounded (max_throughput rs) (max_ttft rs)) rs
all-Bounded [] = tt
all-Bounded (r ∷ rs) = (
  (omega arith, le-max_share (max_ttft rs) (warm_ttft_ms r)),
  widen (max_throughput rs) (max_throughput (r ∷ rs)) (max_ttft rs) (max_ttft (r ∷ rs))
      (omega arith) (max_ttft-Positive rs) (le-max_share_left (max_ttft rs) (warm_ttft_ms r)) rs
      (all-Bounded rs),
)

map-Scored :
    (hardware : HardwareProfile) (p : ℕ) (s : Fraction) (rs : List BenchmarkResult)
    → All (Bounded p s) rs
    → All Scored (map (evaluate hardware p s) rs)
map-Scored hardware p s [] h = tt
map-Scored hardware p s (r ∷ rs) h =
    (evaluate-Scored hardware p s r h.0, map-Scored hardware p s rs h.1)

sorted-Scored : (es : List AdvisorResult) → All Scored es → All Scored (sorted_by scores_before es)
unfolding sorted_by
sorted-Scored [] h = tt
sorted-Scored (e ∷ es) h =
    All-insert_by scores_before Scored e (sorted_by scores_before es) h.0 (sorted-Scored es h.1)

-- A ranking of results: their evaluations in another order, by falling score, each a percentage and 0 if
-- the model does not fit.
abbrev pub Ranks : HardwareProfile → List BenchmarkResult → List AdvisorResult → Type 0
Ranks hardware eligible ranked =
    Perm ranked (map (evaluate hardware (max_throughput eligible) (max_ttft eligible)) eligible)
    × IsSorted scores_before ranked
    × All Scored ranked

-- The advisor's list has one evaluation for each result that its review finds eligible, in the order of
-- falling scores; a score is at most 100 points, and 0 for a model that does not fit the GPU.
pub rank-Ranks :
    (normalized : String → String) (hardware : HardwareProfile) (results : List BenchmarkResult)
    (lens : Option (Dict (Option ℕ)))
    → Ranks hardware
        (keep (λ r. (review normalized hardware lens r).1) results)
        (rank normalized hardware results lens).ranked
unfolding rank
rank-Ranks normalized hardware results lens =
    let eligible = keep (λ r. (review normalized hardware lens r).1) results in
    let es = map (evaluate hardware (max_throughput eligible) (max_ttft eligible)) eligible in
    (
      sorted_by-perm scores_before es,
      sorted_by-IsSorted scores_before (λ x y h. ground (arith, h))
          (λ x y z h k. ground (arith, h, k)) es,
      sorted-Scored es (
          map-Scored hardware (max_throughput eligible) (max_ttft eligible) eligible
            (all-Bounded eligible)),
    )
