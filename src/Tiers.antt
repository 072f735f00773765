-- ===== src/Tiers.antt =====
-- src/inference_x/utils/vram_tiers.py. An amount of VRAM is in hundredths of a GB (the hardware
-- profile rounds to two decimals), and the utilization ceiling in hundredths. The YAML file is an
-- argument: `none` when it does not exist, and else the list of its tiers, already converted.
pub mod Resolve
use inference_x.Prelude.{ℕ, String, Bool, Option, none, some, List, [], ◌∷◌, leb, if◌then◌else◌}
use inference_x.Prelude.Sort.{sorted_by}

pub record VramTier : Type 0 where
  pub name : String
  pub min_vram : ℕ
  pub utilization_ceiling : ℕ
  pub max_model_len_cap : ℕ
  pub max_num_seqs : ℕ
  pub block_size : ℕ
  pub kv_cache_dtype : String
  pub max_num_batched_tokens : Option ℕ
  pub enable_prefix_caching : Bool

pub data TierError : Type 0 where
  file_not_found value_error : TierError

pub data Result {ℓ} (A : Type ℓ) : Type ℓ where
  ok : A → Result A
  raise : TierError → Result A

infixl 5 ◌>>=◌
abbrev pub ◌>>=◌ {ℓ κ} : {A : Type ℓ} {B : Type κ} → Result A → (A → Result B) → Result B
ok a >>= f = f a
raise e >>= f = raise e

abbrev pub floor_le : VramTier → VramTier → Bool
floor_le a b = leb a.min_vram b.min_vram

unfoldable pub load_tiers : Option (List VramTier) → Result (List VramTier)
load_tiers none = raise file_not_found
load_tiers (some []) = raise value_error
load_tiers (some (t ∷ ts)) = ok (sorted_by floor_le (t ∷ ts))

-- The loop of `resolve_tier`: it stops at the first tier whose floor the GPU does not clear.
unfoldable pub climb : ℕ → VramTier → List VramTier → VramTier
climb vram matched [] = matched
climb vram matched (t ∷ ts) =
    let next = climb vram t ts in if leb t.min_vram vram then next else matched

unfoldable pub resolve_tier : ℕ → List VramTier → Result VramTier
unfolding climb
resolve_tier vram [] = raise value_error
resolve_tier vram (t ∷ ts) = ok (climb vram t (t ∷ ts))

-- `AppSettings.get_vram_tier`
unfoldable pub get_vram_tier : ℕ → Option (List VramTier) → Result VramTier
unfolding load_tiers resolve_tier
get_vram_tier vram file = do tiers ← load_tiers file; resolve_tier vram tiers
