-- ===== src/Metrics/Dispatch.antt =====
-- observability/middleware.py, `ObservabilityMiddleware.dispatch`: which records a request makes and
-- what becomes of its response. Parsing the request's and the response's JSON is a library's: what it
-- yields is an argument. The record of a streamed chat response is made by the wrapper of Sse, when the
-- server has iterated over it.
pub mod Accounted
use inference_x.Prelude.{
  ℕ, ◌+◌, ◌≡◌, String, Bool, true, false, not, ◌&&◌, Option, none, some, List, [], ◌∷◌, length, leb,
  ◌==◌, str_eq, arith, if◌then◌else◌, map, ◌++◌,
}
use inference_x.Metrics.Sse.{Payload, Chunk, Ending, StreamRecord, wrap_and_record_sse}
use inference_x.Metrics.Storage.{RequestRecord}

pub record HttpRequest : Type 0 where
  pub method : String
  pub path : String
  -- `model` and `stream` of the JSON body, none where it does not parse.
  pub payload : Option (Option String × Bool)

pub record HttpResponse : Type 0 where
  pub status_code : ℕ
  pub is_event_stream : Bool
  -- `usage` of the JSON body (each of its counts may be missing), none where it does not parse.
  pub usage : Option (Option ℕ × Option ℕ × Option ℕ)

-- What `call_next` does: it returns, it raises an Exception, or the request's task is cancelled in it
-- (or while its response is buffered): CancelledError is no Exception.
pub data Downstream : Type 0 where
  returns : HttpResponse → Downstream
  raises cancelled : Downstream

-- The response as it is, rebuilt from its buffered body, or with its stream wrapped for a model; or the
-- exception.
pub data Outcome : Type 0 where
  untouched rebuilt reraised : Outcome
  wrapped : Option String → Outcome

-- How a streamed response is iterated: its chunks, how that ends, and the time of it.
pub record Iteration : Type 0 where
  pub chunks : List Chunk
  pub ending : Ending
  pub elapsed : ℕ

-- A call of `recorder.record`, by `dispatch`, or by the wrapper with its path, method and model.
pub data RecordCall : Type 0 where
  of_response : RequestRecord → RecordCall
  of_stream : String → String → Option String → StreamRecord → RecordCall

abbrev chat_path : String
chat_path = "/v1/chat/completions"

-- `payload.get("model") or None`, `bool(payload.get("stream"))`; (None, False) on any error.
unfoldable pub extract_chat_request_metadata : Option (Option String × Bool) → Option String × Bool
extract_chat_request_metadata none = (none, false)
extract_chat_request_metadata (some (none, stream)) = (none, stream)
extract_chat_request_metadata (some (some model, stream)) =
    ((if str_eq model "" then none else some model), stream)

unfoldable pub buffer_and_extract_tokens : HttpResponse → Option ℕ × Option ℕ × Option ℕ
buffer_and_extract_tokens r = elim (r.usage) [ none ↦ (none, none, none) | some u ↦ u ]

abbrev pub recorded :
    HttpRequest → ℕ → ℕ → Option String → Option ℕ × Option ℕ × Option ℕ → Bool → RequestRecord
recorded q status elapsed model (p, c, t) failed = record {
  path = q.path;
  method = q.method;
  status_code = status;
  latency = elapsed;
  model = model;
  prompt_tokens = p;
  completion_tokens = c;
  total_tokens = t;
  error = failed;
  ttft = none;
  tokens_per_sec = none;
}

-- The response of a request that is timed.
unfoldable pub on_response :
    HttpRequest → ℕ → Option String → Bool → Bool → HttpResponse → Outcome × List RequestRecord
unfolding buffer_and_extract_tokens
on_response q elapsed model is_chat stream_requested r =
    let answered = is_chat && (r.status_code == 200) in
    let plain = answered && (not stream_requested && not (r.is_event_stream)) in
    let tokens = buffer_and_extract_tokens r in
    if answered && r.is_event_stream then (wrapped model, []) else (
      (if plain then rebuilt else untouched),
      recorded q (r.status_code) elapsed model (if plain then tokens else (none, none, none))
            (leb 500 (r.status_code))
          ∷ [],
    )

-- `starts_with` is `str.startswith`.
unfoldable pub dispatch :
    (String → String → Bool) → HttpRequest → ℕ → Downstream → Outcome × List RequestRecord
unfolding on_response extract_chat_request_metadata
dispatch starts_with q elapsed next =
    let is_chat = str_eq (q.method) "POST" && str_eq (q.path) chat_path in
    let metadata = (if is_chat then extract_chat_request_metadata (q.payload) else (none, false)) in
    if starts_with (q.path) "/metrics"
    then (elim next [ returns r ↦ untouched | _ ↦ reraised ], [])
    else elim next [
      | raises ↦ (reraised, recorded q 500 elapsed (metadata.0) (none, none, none) true ∷ [])
      | cancelled ↦ (reraised, [])
      | returns r ↦ on_response q elapsed (metadata.0) is_chat (metadata.1) r
    ]

-- What a wrapped stream records while the server iterates over it.
unfoldable pub stream_calls :
    (List ℕ → Option Payload) → HttpRequest → Iteration → Outcome → List RecordCall
unfolding wrap_and_record_sse
stream_calls payload_of q body (wrapped model) =
    of_stream q.path q.method model
      (wrap_and_record_sse payload_of body.chunks body.ending body.elapsed).1
    ∷ []
stream_calls payload_of q body _ = []

-- All calls of the recorder for a request.
unfoldable pub calls :
    (String → String → Bool)
    → (List ℕ → Option Payload)
    → HttpRequest
    → ℕ
    → Downstream
    → Iteration
    → List RecordCall
unfolding dispatch stream_calls
calls starts_with payload_of q elapsed next body =
    let (outcome, rs) = dispatch starts_with q elapsed next in
    map of_response rs ++ stream_calls payload_of q body outcome
