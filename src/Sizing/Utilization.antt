-- ===== src/Sizing/Utilization.antt =====
-- src/inference_x/utils/vllm_pool_config.py: the footprint of an engine and the share of the GPU that
-- it gets. Amounts of memory are in hundredths of a byte, and shares are exact quotients; only the
-- final rounding to four digits is the source's.
pub mod Bounds
use inference_x.Prelude.{
  ℕ, zero, suc, ◌+◌, ◌*◌, ◌^◌, String, Bool, true, false, Option, none, some, ltb, ◌==◌,
  if◌then◌else◌,
}
use inference_x.Prelude.Round.{nearest}
use inference_x.Schemas.{Fraction, Ceiling, auto, at}
use inference_x.Sizing.{Outside, HfConfig, or_num, hf_config_dict, estimate_weight}
use inference_x.Sizing.Share.{min_share, max_share}

-- A hundredth of a GiB.
abbrev pub hundredth_gib : ℕ
hundredth_gib = 1024 ^ 3

unfoldable pub kv_bytes : HfConfig → ℕ → ℕ
kv_bytes c max_model_len =
    let hidden = or_num c.hidden_size (or_num c.n_embd 4096) in
    let layers = or_num c.num_hidden_layers (or_num c.n_layer (or_num c.num_layers 32)) in
    2 * layers * hidden * max_model_len * 2

-- Without a config, 0.4 GiB for 2048 tokens.
unfoldable pub estimate_kv_cache : Outside → String → ℕ → ℕ
unfolding kv_bytes
estimate_kv_cache o model_path max_model_len = elim (hf_config_dict o model_path) [
  | none ↦ 40 * (1024 * 512) * max_model_len
  | some c ↦ 100 * kv_bytes c max_model_len
]

-- `_ARCH_OVERHEAD_GIB` has one entry.
unfoldable pub architecture_overhead : Outside → String → ℕ
architecture_overhead o model_path =
    if o.occurs_in "minicpm" (o.lowered model_path) then 280 * hundredth_gib else 0

unfoldable pub estimate_engine_footprint : Outside → String → ℕ → Option String → ℕ
unfolding estimate_weight estimate_kv_cache architecture_overhead
estimate_engine_footprint o model_path max_model_len quantization =
    estimate_weight o model_path quantization
    + estimate_kv_cache o model_path max_model_len
    + 35 * hundredth_gib
    + 45 * hundredth_gib
    + architecture_overhead o model_path

unfoldable pub minimum_utilization : Outside → String → ℕ → ℕ → Option String → Fraction
unfolding estimate_engine_footprint
minimum_utilization o model_path max_model_len total quantization =
    if total == 0 then record { num = 9; den = 10 } else record {
      num = estimate_engine_footprint o model_path max_model_len quantization;
      den = total;
    }

unfoldable pub weights_only_utilization : Outside → String → ℕ → Option String → Fraction
unfolding estimate_weight
weights_only_utilization o model_path total quantization =
    if total == 0
    then record { num = 1; den = 2 }
    else record { num = estimate_weight o model_path quantization; den = total }

-- The keys of the model config that the sizing reads, and the one it writes.
pub record SizedModel : Type 0 where
  pub model_path : String
  pub max_model_len : Option ℕ
  pub quantization : Option String
  pub gpu_memory_utilization : Option Ceiling

unfoldable pub user_util_cap : SizedModel → Option Fraction
user_util_cap config = elim config.gpu_memory_utilization [
  | none ↦ none
  | some auto ↦ none
  | some (at f) ↦ some f
]

-- `max_from_free`: 0.98 of what is free.
unfoldable pub share_of_free : ℕ → Option ℕ → Option Fraction
share_of_free total none = none
share_of_free total (some free) =
    if total == 0 then none else some (record { num = 98 * free; den = 100 * total })

-- The ValueError: the weights alone are more than 0.98 of what is free.
unfoldable pub too_heavy : ℕ → ℕ → Option ℕ → Bool
too_heavy weight total none = false
too_heavy weight total (some free) = if total == 0 then false else ltb (98 * free) (100 * weight)

-- `if limit is not None: util = min(util, limit)`
unfoldable pub limited : Fraction → Option Fraction → Fraction
unfolding min_share
limited util none = util
limited util (some limit) = min_share util limit

-- `_POOL_GPU_HEADROOM`
abbrev pub headroom : Fraction
headroom = record { num = 92; den = 100 }

-- The share before it is rounded.
unfoldable pub exact_utilization :
    Fraction → Fraction → Option Fraction → Option Fraction → Fraction
unfolding limited max_share
exact_utilization footprint weights from_free user_cap =
    let capped = limited (limited footprint from_free) user_cap in
    min_share (limited (max_share capped weights) from_free) headroom

-- `round(x, 4)`
unfoldable pub round_4 : Fraction → Fraction
unfolding nearest
round_4 x = record { num = nearest (10000 * x.num) x.den; den = 10000 }

-- `_single_engine_utilization`: none if it raises.
unfoldable pub single_engine_utilization : Outside → SizedModel → ℕ → Option ℕ → Option Fraction
unfolding minimum_utilization weights_only_utilization user_util_cap share_of_free too_heavy
    exact_utilization round_4
single_engine_utilization o config total free =
    if too_heavy (estimate_weight o config.model_path config.quantization) total free
    then none
    else some (
        round_4 (
          exact_utilization
            (minimum_utilization o config.model_path (or_num config.max_model_len 2048) total
              config.quantization)
            (weights_only_utilization o config.model_path total config.quantization)
            (share_of_free total free) (user_util_cap config)))

unfoldable pub validate_model_fits : Outside → SizedModel → ℕ → Option ℕ → Bool
unfolding single_engine_utilization
validate_model_fits o config total free = elim (single_engine_utilization o config total free) [
  | none ↦ false
  | some _ ↦ true
]

unfoldable pub scale_model_config : Outside → SizedModel → ℕ → Option ℕ → Option SizedModel
unfolding single_engine_utilization
scale_model_config o config total free = elim (single_engine_utilization o config total free) [
  | none ↦ none
  | some util ↦ some (record config { gpu_memory_utilization = some (at util) })
]
