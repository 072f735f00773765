-- ===== src/Benchmarks/Advisor.antt =====
-- src/inference_x/benchmarks/advisor.py: results are ranked for a GPU. A score is in hundredths of a
-- point; the components are exact quotients. `strip` and `lower` on a GPU's name are an argument, and
-- the texts of warnings and recommendations are left out.
pub mod Ranking
use inference_x.Prelude.{
  ℕ, zero, suc, ◌+◌, ◌-◌, ◌*◌, max, String, Bool, true, false, not, ◌&&◌, ◌||◌, Option, none, some,
  List, [], ◌∷◌, ◌++◌, map, keep, total, length, ltb, leb, ◌==◌, str_eq, if◌then◌else◌,
}
use inference_x.Prelude.Dict
use inference_x.Prelude.Dict.{Dict}
use inference_x.Prelude.Round.{nearest}
use inference_x.Prelude.Sort.{sorted_by}
use inference_x.Schemas.{Fraction}
use inference_x.Sizing.Share.{max_share}
use inference_x.Benchmarks.{HardwareProfile, BenchmarkResult}

pub data AdvisorWarning : Type 0 where
  no_hardware skipped max_model_len_changed : String → AdvisorWarning

pub record AdvisorResult : Type 0 where
  pub model_name : String
  pub score : ℕ
  pub viable : Bool
  pub throughput_tps : ℕ
  pub ttft_ms : Fraction
  pub vram_device_occupied_gib : ℕ

pub record AdvisorReport : Type 0 where
  pub ranked : List AdvisorResult
  pub warnings : List AdvisorWarning

-- `VRAM_SAFETY_BUFFER_GB`
abbrev pub vram_safety_buffer : ℕ
vram_safety_buffer = 500

-- `_safe_div(a, b)`, at 0 where `b` is not positive.
unfoldable pub safe_div : Fraction → Fraction → Fraction
safe_div a b =
    if b.num == 0
    then record { num = 0; den = 1 }
    else record { num = a.num * b.den; den = a.den * b.num }

abbrev named : (String → String) → Option String → String
named normalized none = normalized ""
named normalized (some name) = normalized name

unfoldable pub hardware_matches : (String → String) → HardwareProfile → HardwareProfile → Bool
hardware_matches normalized saved current =
    let saved_name = named normalized saved.gpu_name in
    let current_name = named normalized current.gpu_name in
    let apart =
      (saved.vram_total_gb - current.vram_total_gb)
      + (current.vram_total_gb - saved.vram_total_gb) in
    if not (str_eq saved_name "")
      && not (str_eq current_name "")
      && not (str_eq saved_name current_name)
    then false
    else not (ltb 500 apart)

-- `prompt_results[1:] if len(prompt_results) > 1 else prompt_results`
abbrev pub warm : List ℕ → List ℕ
warm [] = []
warm (t ∷ []) = t ∷ []
warm (t ∷ u ∷ ts) = u ∷ ts

abbrev pub mean : List ℕ → Fraction
mean [] = record { num = 0; den = 1 }
mean (t ∷ ts) = record { num = total (λ x. x) (t ∷ ts); den = length (t ∷ ts) }

unfoldable pub warm_ttft_ms : BenchmarkResult → Fraction
warm_ttft_ms r = mean (warm r.prompt_ttfts)

abbrev changed : String → Option ℕ → Option ℕ → List AdvisorWarning
changed name (some then_len) (some now_len) =
    if then_len == now_len then [] else max_model_len_changed name ∷ []
changed name _ _ = []

abbrev current_len : Option (Dict (Option ℕ)) → String → Option ℕ
current_len none name = none
current_len (some lens) name = elim (Dict.get lens name) [ none ↦ none | some len ↦ len ]

-- `_maybe_warn_max_model_len`
unfoldable pub warn_max_model_len : Option (Dict (Option ℕ)) → BenchmarkResult → List AdvisorWarning
warn_max_model_len lens r = changed r.model_name r.max_model_len (current_len lens r.model_name)

-- The warnings of the first loop for a result, and whether it is eligible.
unfoldable pub review :
    (String → String)
    → HardwareProfile
    → Option (Dict (Option ℕ))
    → BenchmarkResult
    → List AdvisorWarning × Bool
unfolding hardware_matches warn_max_model_len
review normalized hardware lens r = elim r.hardware [
  | none ↦ (no_hardware r.model_name ∷ warn_max_model_len lens r, true)
  | some saved ↦
      if hardware_matches normalized saved hardware
      then (warn_max_model_len lens r, true)
      else (skipped r.model_name ∷ [], false)
]

abbrev pub all_warnings :
    (BenchmarkResult → List AdvisorWarning × Bool) → List BenchmarkResult → List AdvisorWarning
all_warnings reviewed [] = []
all_warnings reviewed (r ∷ rs) = (reviewed r).0 ++ all_warnings reviewed rs

abbrev pub max_throughput : List BenchmarkResult → ℕ
max_throughput [] = 0
max_throughput (r ∷ rs) = max r.mean_throughput_tps (max_throughput rs)

abbrev pub max_ttft : List BenchmarkResult → Fraction
max_ttft [] = record { num = 0; den = 1 }
max_ttft (r ∷ rs) = max_share (max_ttft rs) (warm_ttft_ms r)

unfoldable pub viable_by_vram : HardwareProfile → BenchmarkResult → Bool
viable_by_vram hardware r =
    if hardware.has_gpu
    then leb (r.vram_device_occupied_gib + vram_safety_buffer) hardware.vram_total_gb
    else true

-- What is left of the memory, as a share of it; none of it is left below 0.
unfoldable pub headroom_share : HardwareProfile → BenchmarkResult → Fraction
headroom_share hardware r =
    if hardware.has_gpu
    then record {
      num = hardware.vram_total_gb - (r.vram_device_occupied_gib + vram_safety_buffer);
      den = hardware.vram_total_gb;
    }
    else record { num = 1; den = 1 }

-- 1 less a share.
abbrev pub rest_of : Fraction → Fraction
rest_of x = record { num = x.den - x.num; den = x.den }

-- `round((4/9 x + 1/3 y + 2/9 z) * 100, 2)`, in hundredths.
unfoldable pub weighted : Fraction → Fraction → Fraction → ℕ
unfolding nearest
weighted x y z =
    nearest
      (10000
        * (4 * (x.num * y.den * z.den) + 3 * (x.den * y.num * z.den) + 2 * (x.den * y.den * z.num)))
      (9 * (x.den * y.den * z.den))

unfoldable pub evaluate : HardwareProfile → ℕ → Fraction → BenchmarkResult → AdvisorResult
unfolding viable_by_vram weighted safe_div headroom_share warm_ttft_ms
evaluate hardware top_throughput top_ttft r = record {
  model_name = r.model_name;
  score =
      if viable_by_vram hardware r
      then weighted
          (safe_div (record { num = r.mean_throughput_tps; den = 1 })
            (record { num = top_throughput; den = 1 }))
          (rest_of (safe_div (warm_ttft_ms r) top_ttft)) (headroom_share hardware r)
      else 0;
  viable = viable_by_vram hardware r;
  throughput_tps = r.mean_throughput_tps;
  ttft_ms = warm_ttft_ms r;
  vram_device_occupied_gib = r.vram_device_occupied_gib;
}

-- `sort(key=lambda r: r.score, reverse=True)`
abbrev pub scores_before : AdvisorResult → AdvisorResult → Bool
scores_before x y = leb y.score x.score

unfoldable pub rank :
    (String → String)
    → HardwareProfile
    → List BenchmarkResult
    → Option (Dict (Option ℕ))
    → AdvisorReport
unfolding review evaluate sorted_by
rank normalized hardware results lens =
    let reviewed = review normalized hardware lens in
    let eligible = keep (λ r. (reviewed r).1) results in
    record {
      ranked =
          sorted_by scores_before
            (map (evaluate hardware (max_throughput eligible) (max_ttft eligible)) eligible);
      warnings = all_warnings reviewed results;
    }
