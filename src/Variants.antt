-- ===== src/Variants.antt =====
-- src/inference_x/routing/variant_selector.py: the most precise variant of a family that fits.
-- The VRAM that is available is in hundredths of a GiB.
pub mod Best
use inference_x.Prelude.{
  ℕ, ◌*◌, ◌^◌, String, Bool, Option, none, some, List, [], ◌∷◌, leb, if◌then◌else◌,
}
use inference_x.Prelude.Sort.{sorted_by}
use inference_x.Schemas.{ModelEntry}
use inference_x.Registry.{ModelRegistry, variants}
use inference_x.Tiers.{VramTier}
use inference_x.Sizing.{Outside, bytes_per_param, estimate_weight}

-- NoVariantFitsError, its two causes apart.
pub data Selection : Type 0 where
  selected : String → Selection
  unknown_family none_fits : Selection

abbrev pub at_least : Outside → ModelEntry → ModelEntry → Bool
at_least o a b = leb (bytes_per_param o b.quantization) (bytes_per_param o a.quantization)

-- Python's stable `sorted(..., reverse=True)`
unfoldable pub sorted_by_precision : Outside → List ModelEntry → List ModelEntry
sorted_by_precision o ms = sorted_by (at_least o) ms

-- `estimated_gib <= available_vram_gib * ceiling`, cleared of denominators.
unfoldable pub fits : Outside → VramTier → ℕ → ModelEntry → Bool
fits o tier available m =
    leb (estimate_weight o m.model_path m.quantization * 100)
      (available * tier.utilization_ceiling * 1024 ^ 3)

unfoldable pub first_fit : (ModelEntry → Bool) → List ModelEntry → Selection
first_fit fit [] = none_fits
first_fit fit (m ∷ ms) = let later = first_fit fit ms in if fit m then selected m.name else later

unfoldable pub select_variant : Outside → String → ModelRegistry → VramTier → ℕ → Selection
unfolding sorted_by_precision fits first_fit
select_variant o family registry tier available =
    let found = variants registry family in
    elim found [
      | [] ↦ unknown_family
      | m ∷ ms ↦ first_fit (fits o tier available) (sorted_by_precision o (m ∷ ms))
    ]
