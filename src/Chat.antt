-- ===== src/Chat.antt =====
-- src/inference_x/services/chat_service.py: the orchestration of a request, from the router through
-- the admission controller to the engine, up to the response or the event stream. Fresh ids and the
-- JSON text of an event are left out: an event is the payload that is dumped. The wait inside
-- `admit` is in Admission; here a request goes on from the result that `admit` returned.
pub mod Complete
pub mod Stream
use inference_x.Prelude.{
  ℕ, String, Bool, true, false, Option, none, some, List, any, str_eq, if◌then◌else◌,
}
use inference_x.Schemas.{ChatCompletionRequest, ResolvedRequest}
use inference_x.Pool
use inference_x.Pool.{EnginePool}
use inference_x.Routing
use inference_x.Routing.{TaskRouter}
use inference_x.Admission.{AdmissionResult}

-- `request.model_copy(update={"max_tokens": admitted.effective_max_tokens})`
unfoldable pub effective_request : ChatCompletionRequest → AdmissionResult → ChatCompletionRequest
effective_request request admitted = record request {
  max_tokens = some admitted.effective_max_tokens;
}

-- `_resolved`: the fields of the Effective Request that `ResolvedRequest` declares.
unfoldable pub resolved : ChatCompletionRequest → ResolvedRequest
resolved request = record {
  model = request.model;
  temperature = request.temperature;
  max_tokens = request.max_tokens;
  top_p = request.top_p;
  max_context_tokens = request.max_context_tokens;
  max_output_tokens = request.max_output_tokens;
  priority = request.priority;
  seed = request.seed;
}

-- `_resolve_engine`: the routed model and its engine; `none` is the ValueError of a model that is
-- not loaded in this process.
module _ {E : Type 0} where
  unfoldable pub resolve_engine :
      TaskRouter → EnginePool E → ChatCompletionRequest → Option (String × E)
  resolve_engine router pool request =
      let model = Routing.select router request in
      if any (λ j. str_eq j model) (Pool.loaded_models pool)
      then elim (Pool.get pool model) [ none ↦ none | some engine ↦ some (model, engine) ]
      else none
