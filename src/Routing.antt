-- ===== src/Routing.antt =====
-- src/inference_x/routing/policies.py and task_router.py: which model serves a request.
pub mod Laws
use inference_x.Prelude.{String, Bool, Option, none, some, if◌then◌else◌}
use inference_x.Schemas.{ChatCompletionRequest}
use inference_x.Registry
use inference_x.Registry.{ModelRegistry}

-- `ExplicitModelPolicy.apply`: the model that the client named, if it is registered.
unfoldable pub explicit_policy : ModelRegistry → ChatCompletionRequest → Option String
explicit_policy registry request =
    if Registry.contains registry request.model then some request.model else none

pub record TaskRouter : Type 0 where
  pub registry : ModelRegistry
  pub default_model : String

-- `TaskRouter(registry, default_model)`; `none` is the ValueError of `DefaultModelPolicy` for a
-- default that is not registered.
unfoldable pub create : ModelRegistry → String → Option TaskRouter
create registry default_model =
    if Registry.contains registry default_model
    then some (record { registry = registry; default_model = default_model })
    else none

-- `TaskRouter.select`
unfoldable pub select : TaskRouter → ChatCompletionRequest → String
unfolding explicit_policy
select router request = elim (explicit_policy router.registry request) [
  | some model ↦ model
  | none ↦ router.default_model
]
