-- ===== src/Startup.antt =====
-- src/inference_x/api/deps.py: what is built when the server starts. Loading an engine is an argument
-- here, a function that gives an engine or nothing when it raises; Startup.Load is that function. The
-- VRAM that a probe reports is in hundredths of a GiB.
pub mod Single
pub mod Default
pub mod Load
pub mod Boot
use inference_x.Prelude.{
  ℕ, String, Bool, true, false, not, ◌||◌, Option, none, some, List, [], ◌∷◌, keep, ◌==◌, str_eq,
  is_some, if◌then◌else◌,
}
use inference_x.Prelude.Dict
use inference_x.Schemas.{Fraction}
use inference_x.Registry
use inference_x.Registry.{ModelRegistry}
use inference_x.Tiers.{VramTier}
use inference_x.Tiers
use inference_x.Routing
use inference_x.Routing.{TaskRouter}
use inference_x.Pool
use inference_x.Pool.{EnginePool}
use inference_x.Sizing.{Outside}
use inference_x.Variants.{Selection, selected, unknown_family, none_fits, select_variant}
use inference_x.Admission.{Config}

pub data StartupError : Type 0 where
  not_registered no_variant_fits too_many_models empty_pool engine_failed : StartupError

pub data Startup (A : Type 0) : Type 0 where
  ok : A → Startup A
  fails : StartupError → Startup A

infixl 5 ◌>>=◌
abbrev pub ◌>>=◌ : {A : Type 0} {B : Type 0} → Startup A → (A → Startup B) → Startup B
ok a >>= f = f a
fails e >>= f = fails e

abbrev pub is_empty {ℓ} : {A : Type ℓ} → List A → Bool
is_empty [] = true
is_empty (x ∷ xs) = false

-- `select_variant`, its exception passed on.
abbrev pub variant_name : Selection → Startup String
variant_name (selected name) = ok name
variant_name unknown_family = fails no_variant_fits
variant_name none_fits = fails no_variant_fits

-- One round of the loop: `registry.get` raises for a name that is not registered.
unfoldable pub resolve_name :
    Outside → ModelRegistry → Option VramTier → ℕ → String → Startup String
resolve_name o registry tier available name =
    if Registry.contains registry name then ok name else elim tier [
      | none ↦ fails not_registered
      | some t ↦
          if is_empty (Registry.variants registry name)
          then fails not_registered
          else variant_name (select_variant o name registry t available)
    ]

unfoldable pub resolve_loaded_model_names :
    Outside → ModelRegistry → Option VramTier → ℕ → List String → Startup (List String)
unfolding resolve_name
resolve_loaded_model_names o registry tier available [] = ok []
resolve_loaded_model_names o registry tier available (name ∷ names) = do
  resolved ← resolve_name o registry tier available name
  rest ← resolve_loaded_model_names o registry tier available names
  ok (resolved ∷ rest)

-- `list(dict.fromkeys(names))`
unfoldable pub distinct : List String → List String
distinct [] = []
distinct (n ∷ ns) = n ∷ keep (λ x. not (str_eq x n)) (distinct ns)

-- `total_gib if total_gib is not None else 8.0`, and what is free, or else all.
abbrev pub available_vram : Option ℕ → Option ℕ → ℕ
available_vram none none = 800
available_vram none (some total) = total
available_vram (some free) total = free

-- The router's: `free if free is not None else (total or 8.0)`.
abbrev pub router_vram : Option ℕ → Option ℕ → ℕ
router_vram none none = 800
router_vram none (some total) = if total == 0 then 800 else total
router_vram (some free) total = free

module _ {E : Type 0} (load : String → Option E) where
  abbrev pub pool_of : Option (EnginePool E) → Startup (EnginePool E)
  pool_of none = fails empty_pool
  pool_of (some pool) = ok pool

  -- The pool for the distinct names: `EnginePool({})` raises.
  unfoldable pub pool_for : List String → Startup (EnginePool E)
  pool_for [] = pool_of (Pool.create [])
  pool_for (name ∷ []) = elim (load name) [
    | none ↦ fails engine_failed
    | some engine ↦ pool_of (Pool.create ((name, engine) ∷ []))
  ]
  pool_for (name ∷ other ∷ names) = fails too_many_models

  unfoldable pub build_engine_pool :
      Outside
      → ModelRegistry
      → Option VramTier
      → Option ℕ
      → Option ℕ
      → List String
      → Startup (EnginePool E)
  unfolding pool_for
  build_engine_pool o registry tier free total loaded_models = do
    resolved ← resolve_loaded_model_names o registry tier (available_vram free total) loaded_models
    pool_for (distinct resolved)

unfoldable pub resolve_default_model :
    Outside → ModelRegistry → String → Option VramTier → ℕ → Startup String
resolve_default_model o registry default_model none available = ok default_model
resolve_default_model o registry default_model (some tier) available =
    if Registry.contains registry default_model
      || is_empty (Registry.variants registry default_model)
    then ok default_model
    else variant_name (select_variant o default_model registry tier available)

-- `TaskRouter(registry, resolved_default)`, whose ValueError is that the default is not registered.
unfoldable pub build_router :
    Outside → ModelRegistry → String → Option VramTier → Option ℕ → Option ℕ → Startup TaskRouter
unfolding resolve_default_model
build_router o registry default_model tier free total = do
  resolved ← resolve_default_model o registry default_model tier (router_vram free total)
  elim (Routing.create registry resolved) [ none ↦ fails not_registered | some router ↦ ok router ]

-- `_resolve_vram_tier_for_pool`: none when resolving raises.
unfoldable pub resolve_vram_tier_for_pool : Tiers.Result VramTier → Option VramTier
resolve_vram_tier_for_pool (Tiers.ok t) = some t
resolve_vram_tier_for_pool (Tiers.raise e) = none

-- The margin is the default of 0.9.
unfoldable pub build_admission_controller : ModelRegistry → Tiers.Result VramTier → ℕ → Config
unfolding resolve_vram_tier_for_pool
build_admission_controller registry resolved multiplier = record {
  registry = registry;
  tier = resolve_vram_tier_for_pool resolved;
  kv_safety_margin = record { num = 9; den = 10 };
  batch_waiter_multiplier = multiplier;
}
