-- ===== src/Tests/Choosing.antt =====
-- Which model, variant and tier is chosen, and how a family is sized.
use inference_x.Prelude.{
  String, Option, ℕ, ◌≡◌, refl, Bool, true, false, none, some, [], ◌∷◌, str_eq,
}
use inference_x.Prelude.Dict
use inference_x.Registry
use inference_x.Registry.{variants}
use inference_x.Routing
use inference_x.Routing.{TaskRouter}
use inference_x.Pool.{EnginePool, get, loaded_models, all_healthy, health_status}
use inference_x.Tiers.{VramTier, ok, get_vram_tier}
use inference_x.Tiers.Resolve.{IsBest, get_vram_tier-IsBest}
use inference_x.Sizing.{Outside, billions}
use inference_x.Sizing.Knobs.{EngineConfig, apply_tier_knobs, Within, apply_tier_knobs-Within}
use inference_x.Pool
use inference_x.Startup.{
  ok as ok_startup, distinct, resolve_name, resolve_loaded_model_names, pool_for, build_engine_pool,
}
use inference_x.Startup.{resolve_default_model, build_router}
use inference_x.Startup.Default.{build_router-registered}
use inference_x.Startup.Single.{Serves, build_engine_pool-Serves}
use inference_x.Variants.{fits, select_variant}
use inference_x.Variants.Best.{IsSelection, select_variant-IsSelection}
use inference_x.Tests.{low_tier, high_tier, registry, modest}

-- Names in lower case already, a size of one billion in every name, and no config to be had.
abbrev pub outside : Outside
outside = record {
  normalized = λ s. s;
  lowered = λ s. s;
  occurs_in = λ needle key. str_eq needle key;
  is_local = λ path. false;
  size_in = λ path. some (record { num = 1; den = 1 }, billions);
  auto_config = λ path. none;
}

select_variant-IsSelection_example :
    IsSelection outside
      (fits outside low_tier 100)
      (variants registry "family")
      (select_variant outside "family" registry low_tier 100)
select_variant-IsSelection_example =
    select_variant-IsSelection outside "family" registry low_tier 100

-- A GPU of 12 GB: above the floor of the low tier, below the high one's.
get_vram_tier-IsBest_example :
    (u : VramTier) × (get_vram_tier 1200 (some (high_tier ∷ low_tier ∷ [])) ≡ ok u)
    × IsBest 1200 (high_tier ∷ low_tier ∷ []) u
get_vram_tier-IsBest_example = get_vram_tier-IsBest 1200 high_tier (low_tier ∷ [])

abbrev router : TaskRouter
router = record { registry = registry; default_model = "large" }

router_created : Routing.create registry "large" ≡ some router
unfolding Routing.create Registry.contains Dict.has Dict.get
router_created = refl

abbrev pool : EnginePool Bool
pool = record { engines = ("small", true) ∷ ("large", false) ∷ [] }

abbrev settings : EngineConfig
settings = record {
  max_num_seqs = some 4;
  max_num_batched_tokens = none;
  block_size = none;
  kv_cache_dtype = none;
  enable_prefix_caching = none;
}

apply_tier_knobs-Within_example :
    Within (apply_tier_knobs settings (some low_tier)).max_num_seqs (some 2)
    × Within (apply_tier_knobs settings (some low_tier)).max_num_seqs (some 4)
    × Within (apply_tier_knobs settings (some low_tier)).max_num_batched_tokens none
    × Within (apply_tier_knobs settings (some low_tier)).max_num_batched_tokens none
    × (apply_tier_knobs (apply_tier_knobs settings (some low_tier)) (some low_tier)
        ≡ apply_tier_knobs settings (some low_tier))
apply_tier_knobs-Within_example = apply_tier_knobs-Within settings low_tier

-- The engine of a model is a number here; every model loads.
abbrev loads : String → Option ℕ
loads name = some 7

abbrev serving : EnginePool ℕ
serving = record { engines = ("small", 7) ∷ [] }

resolved_small :
    resolve_loaded_model_names outside registry (some low_tier) 700 ("small" ∷ "small" ∷ [])
    ≡ ok_startup ("small" ∷ "small" ∷ [])
unfolding resolve_loaded_model_names resolve_name Registry.contains Dict.has Dict.get
resolved_small = refl

pool_built :
    build_engine_pool loads outside registry
      (some low_tier)
      (some 700)
      (some 800)
      ("small" ∷ "small" ∷ [])
    ≡ ok_startup serving
unfolding build_engine_pool pool_for distinct Pool.create resolve_loaded_model_names resolve_name
    Registry.contains Dict.has Dict.get
pool_built = refl

build_engine_pool-Serves_example : Serves loads ("small" ∷ "small" ∷ []) serving
build_engine_pool-Serves_example =
    build_engine_pool-Serves loads outside registry (some low_tier) (some 700) (some 800)
      ("small" ∷ "small" ∷ []) ("small" ∷ "small" ∷ []) serving resolved_small pool_built

router_built :
    build_router outside registry "large" (some low_tier) (some 700) (some 800) ≡ ok_startup router
unfolding build_router resolve_default_model Routing.create Registry.contains Dict.has Dict.get
router_built = refl

build_router-registered_example : Registry.contains registry (Routing.select router modest) ≡ true
build_router-registered_example =
    build_router-registered outside registry "large" (some low_tier) (some 700) (some 800) router
      modest router_built
