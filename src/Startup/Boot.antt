-- ===== src/Startup/Boot.antt =====
-- A server process that starts: the pool that it builds, the engine in it and its admission control.
use inference_x.Prelude.{ℕ, ◌≡◌, String, Option, some, [], ◌∷◌, All}
use inference_x.Prelude.Dict
use inference_x.Prelude.Dict.{Dict}
use inference_x.Registry
use inference_x.Registry.{ModelRegistry}
use inference_x.Tiers
use inference_x.Tiers.{VramTier}
use inference_x.Pool
use inference_x.Pool.{EnginePool}
use inference_x.Sizing.Utilization.Bounds.{Sensible}
use inference_x.Engine.Load.Start.{VllmEngine, Machine, as_sized}
use inference_x.Admission.{effective_max_num_seqs}
use inference_x.Startup.{Startup, ok, build_admission_controller}
use inference_x.Startup.Load.{model_dump, FromAdmission}

-- The utilization of every model, if it is given, is a positive number.
abbrev pub AllSensible : ModelRegistry → Type 0
AllSensible registry = All (λ e. Sensible (as_sized (model_dump e.1))) registry.models

module _ (machine : Machine) (registry : ModelRegistry) (t : VramTier) (free total : Option ℕ) where
  -- The pool has one model, whose engine was started for what the admission controller lets run.
  abbrev pub Boots : ℕ → EnginePool VllmEngine → Type 0
  Boots multiplier pool =
      (name : String) × (e : VllmEngine) × (Pool.loaded_models pool ≡ name ∷ [])
      × (Pool.get pool name ≡ some e)
      × FromAdmission machine e (
          effective_max_num_seqs (build_admission_controller registry (Tiers.ok t) multiplier) name)
