-- ===== src/Pool.antt =====
-- src/inference_x/engines/pool.py: the loaded engines, by model name. `E` is the type of an engine.
pub mod Laws
use inference_x.Prelude.{String, Bool, Option, none, some, List, [], ◌∷◌, all, map, if◌then◌else◌}
use inference_x.Prelude.Dict
use inference_x.Prelude.Dict.{Dict}

pub record EnginePool (E : Type 0) : Type 0 where
  pub engines : Dict E

module _ {E : Type 0} where
  -- `EnginePool(engines)`; `none` is the ValueError of an empty pool.
  unfoldable pub create : Dict E → Option (EnginePool E)
  create [] = none
  create (e ∷ es) = some (record { engines = e ∷ es })

  -- `none` is the ValueError of a model that is not loaded.
  unfoldable pub get : EnginePool E → String → Option E
  get pool name = Dict.get pool.engines name

  unfoldable pub loaded_models : EnginePool E → List String
  unfolding Dict.keys
  loaded_models pool = Dict.keys pool.engines

  unfoldable pub all_healthy : (E → Bool) → EnginePool E → Bool
  unfolding Dict.values
  all_healthy is_healthy pool = all is_healthy (Dict.values pool.engines)

  unfoldable pub health_status : (E → Bool) → EnginePool E → Dict String
  health_status is_healthy pool =
      map (λ e. (e.0, (if is_healthy e.1 then "ok" else "unavailable"))) pool.engines
