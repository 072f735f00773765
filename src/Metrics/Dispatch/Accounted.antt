-- ===== src/Metrics/Dispatch/Accounted.antt =====
-- Each request that is measured is recorded once, as what it was.
use inference_x.Prelude.{
  str_eq, ℕ, ◌≡◌, String, Bool, false, ◌&&◌, Option, none, List, [], ◌∷◌, map, ◌++◌, leb,
  if◌then◌else◌,
}
use inference_x.Metrics.Storage.{RequestRecord}
use inference_x.Metrics.Sse.{Payload}
use inference_x.Metrics.Dispatch.{
  extract_chat_request_metadata, HttpRequest, Downstream, returns, raises, cancelled, Outcome,
  Iteration, RecordCall, of_response, of_stream, stream_calls,
}

-- The request that a call is about, and the model that it asked for.
abbrev pub About : HttpRequest → Option String → RecordCall → Type 0
About q m (of_response r) = (r.path ≡ q.path) × (r.method ≡ q.method) × (r.model ≡ m)
About q m (of_stream path method model r) = (path ≡ q.path) × (method ≡ q.method) × (model ≡ m)

-- The model that a chat request names.
abbrev pub model_named : HttpRequest → Option String
model_named q =
    (if str_eq q.method "POST" && str_eq q.path "/v1/chat/completions"
      then extract_chat_request_metadata q.payload
      else (none, false)).0

abbrev pub status_of : RecordCall → ℕ
status_of (of_response r) = r.status_code
status_of (of_stream _ _ _ r) = r.status_code

abbrev pub error_of : RecordCall → Bool
error_of (of_response r) = r.error
error_of (of_stream _ _ _ r) = r.error

-- One call, about the request, that is marked as an error exactly if its status is 500 or more.
abbrev pub RecordedOnce : HttpRequest → Option String → List RecordCall → Type 0
RecordedOnce q m cs =
    (call : RecordCall) × (cs ≡ call ∷ [])
    × About q m call
    × (error_of call ≡ leb 500 (status_of call))

-- What is recorded, by what becomes of the request; an exception is recorded as status 500.
abbrev pub Accounts : HttpRequest → Downstream → List RecordCall → Type 0
Accounts q cancelled cs = cs ≡ []
Accounts q raises cs =
    RecordedOnce q (model_named q) cs
    × ((call : RecordCall) × (cs ≡ call ∷ []) × (status_of call ≡ 500))
Accounts q (returns r) cs = RecordedOnce q (model_named q) cs

module _ (starts_with : String → String → Bool) (payload_of : List ℕ → Option Payload)
    (q : HttpRequest) (elapsed : ℕ) (body : Iteration) where
  -- The calls after `call_next`.
  later : Outcome × List RequestRecord → List RecordCall
  later made = map of_response made.1 ++ stream_calls payload_of q body made.0
