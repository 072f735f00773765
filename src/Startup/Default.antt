-- ===== src/Startup/Default.antt =====
-- A server process that starts routes every request to a model that is registered.
use inference_x.Prelude.{ℕ, ◌≡◌, inl, inr, String, true, Option, none, some, arith, Option-cases}
use inference_x.Schemas.{ChatCompletionRequest}
use inference_x.Registry
use inference_x.Registry.{ModelRegistry}
use inference_x.Tiers.{VramTier}
use inference_x.Routing
use inference_x.Routing.{TaskRouter}
use inference_x.Routing.Laws.{select-registered}
use inference_x.Sizing.{Outside}
use inference_x.Startup.{
  Startup, not_registered, ok, fails, ◌>>=◌, resolve_default_model, build_router, router_vram,
}

created :
    (registry : ModelRegistry) (resolved : Startup String) (router : TaskRouter)
    → (resolved >>= (λ name. elim (Routing.create registry name) [
      | none ↦ fails not_registered
      | some r ↦ ok r
    ]))
      ≡ ok router
    → (name : String) × (Routing.create registry name ≡ some router)
created registry (fails e) router h = absurd (ground (arith, h))
created registry (ok name) router h = elim (Option-cases (Routing.create registry name)) [
  | inl n ↦ absurd (ground (arith, n, h))
  | inr (r, s) ↦ (name, ground (arith, s, h))
]

-- If the router is built, from a default that is a model's name or a family's, every request is routed to
-- a model that is registered.
pub build_router-registered :
    (o : Outside) (registry : ModelRegistry) (default_model : String) (tier : Option VramTier)
    (free total : Option ℕ) (router : TaskRouter) (request : ChatCompletionRequest)
    → build_router o registry default_model tier free total ≡ ok router
    → Registry.contains registry (Routing.select router request) ≡ true
unfolding build_router
build_router-registered o registry default_model tier free total router request e =
    let (name, made) =
      created registry
        (resolve_default_model o registry default_model tier (router_vram free total)) router e in
    (select-registered registry name router request made).0
