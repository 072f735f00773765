-- ===== src/Chat/Complete.antt =====
-- `ChatService.complete`, from the admission of a request on.
use inference_x.Prelude.{ℕ, String, ◌≡◌, refl, true, false, Option, none, some, arith}
use inference_x.Schemas.{ChatCompletionRequest, ChatCompletionResponse}
use inference_x.Pool
use inference_x.Pool.{EnginePool}
use inference_x.Pool.Laws.{get-loaded_models, names_it}
use inference_x.Routing
use inference_x.Routing.{TaskRouter}
use inference_x.Admission.{AdmissionResult, Config, Controller}
use inference_x.Admission.Admit
use inference_x.Admission.Admit.Books.{bump, Balanced}
use inference_x.Admission.Admit.Later.{release-Balanced}
use inference_x.Chat.Stream.Protocol.{echo}
use inference_x.Chat.{effective_request, resolved, resolve_engine}

-- What `engine.generate` does: it returns a response, or it raises (`X` is the exception).
pub data Generation (X : Type 0) : Type 0 where
  responds : ChatCompletionResponse → Generation X
  raises : X → Generation X

-- `complete` after `admit`: the engine runs on the Effective Request, the `finally` releases the
-- reservation from the controller as the other requests have left it (`ctl`), and the response gets
-- its `resolved` block and its warnings. The released controller is `none` if `release` raises.
module _ {X : Type 0} where
  unfoldable pub complete :
      Controller
      → String
      → ChatCompletionRequest
      → AdmissionResult
      → (ChatCompletionRequest → Generation X)
      → Option Controller × Generation X
  complete ctl model request admitted generate =
      let effective = effective_request request admitted in
      (
        Admit.release ctl model admitted.reserved_tokens,
        elim (generate effective) [
          | raises x ↦ raises x
          | responds r ↦
              responds
                (record r { resolved = some (resolved effective); warnings = admitted.warnings })
        ],
      )

  -- What the client gets for what the engine gave: its exception, or its response with the request
  -- that ran, at the admitted output length, and the warnings of the admission.
  abbrev pub Answers :
      ChatCompletionRequest → AdmissionResult → Generation X → Generation X → Type 0
  Answers request admitted (raises x) out = out ≡ raises x
  Answers request admitted (responds r) out =
      (s : ChatCompletionResponse) × (out ≡ responds s)
      × (s.content ≡ r.content)
      × (s.usage ≡ r.usage)
      × (s.warnings ≡ admitted.warnings)
      × (s.resolved ≡ some (echo request admitted))

  -- Whatever the engine does, the reservation of an admitted request is released, exactly, and the
  -- release does not raise; the client gets the engine's exception, or its response with the request
  -- that ran, at the admitted output length, and the warnings of the admission.
  pub complete-releases :
      (c : Config) (ctl : Controller) (model : String) (request : ChatCompletionRequest)
      (admitted : AdmissionResult) (generate : ChatCompletionRequest → Generation X)
      (held reserved queued : String → ℕ)
      → Balanced c ctl (bump model 1 held) (bump model admitted.reserved_tokens reserved) queued
      → ((ctl' : Controller) × ((complete ctl model request admitted generate).0 ≡ some ctl')
          × Balanced c ctl' held reserved queued)
        × Answers request admitted
            (generate (effective_request request admitted))
            (complete ctl model request admitted generate).1
  unfolding complete effective_request resolved
  complete-releases c ctl model request admitted generate held reserved queued b = (
    release-Balanced c ctl model admitted.reserved_tokens held reserved queued b,
    answered (generate _),
  )
    where
      answered :
          (g : Generation X)
          → Answers request admitted g (elim g [
            | raises x ↦ raises x
            | responds r ↦ responds (record r {
              resolved = some (resolved (effective_request request admitted));
              warnings = admitted.warnings;
            })
          ])
      answered (raises x) = refl
      answered (responds r) = (
        record r {
          resolved = some (resolved (effective_request request admitted));
          warnings = admitted.warnings;
        },
        refl,
        refl,
        refl,
        refl,
        refl,
      )

module _ {E : Type 0} where
  -- That model is not loaded, or it is the routed one with its engine in the pool.
  abbrev pub Resolution :
      TaskRouter → EnginePool E → ChatCompletionRequest → Option (String × E) → Type 0
  Resolution router pool request none =
      names_it (Routing.select router request) (Pool.loaded_models pool) ≡ false
  Resolution router pool request (some (m, e)) =
      (m ≡ Routing.select router request)
      × (Pool.get pool m ≡ some e)
      × (names_it m (Pool.loaded_models pool) ≡ true)

  -- A request is refused only if the model that it is routed to is not loaded, and else it reaches
  -- that model's engine, which is loaded.
  pub resolve_engine-Resolution :
      (router : TaskRouter) (pool : EnginePool E) (request : ChatCompletionRequest)
      → Resolution router pool request (resolve_engine router pool request)
  unfolding resolve_engine
  resolve_engine-Resolution router pool request =
      ground (arith, get-loaded_models pool (Routing.select router request))
