-- ===== src/Routing/Laws.antt =====
-- A router that was constructed routes every request to a registered model.
use inference_x.Prelude.{String, ◌≡◌, inl, inr, true, some, arith, if◌then◌else◌, Bool-cases}
use inference_x.Schemas.{ChatCompletionRequest}
use inference_x.Registry
use inference_x.Registry.{ModelRegistry}
use inference_x.Routing.{TaskRouter, create, select}

-- Whatever model a request names, a constructed router routes it to a registered model: the named
-- one if that is registered, and else the default.
pub select-registered :
    (registry : ModelRegistry) (default_model : String) (router : TaskRouter)
    (request : ChatCompletionRequest)
    → create registry default_model ≡ some router
    → (Registry.contains registry (select router request) ≡ true)
      × (select router request
          ≡ (if Registry.contains registry request.model then request.model else default_model))
unfolding create select
select-registered registry default_model router request e =
    elim (Bool-cases (Registry.contains registry request.model)) [
      | inl t ↦ (ground (arith, t), ground (arith, t))
      | inr f ↦ (ground (arith, f), ground (arith, f))
    ]
