-- ===== src/Chat/Stream.antt =====
-- `ChatService.stream_response`, from the admission of a request on. What the engine's generator does
-- at each `__anext__` is a list of steps; a list that ends is the end of the generator
-- (StopAsyncIteration). The trace of a run lists its effects in order: the events that it yields, the
-- creation and the closing of the engine's generator, and the release of the reservation.
pub mod Release
pub mod Protocol
use inference_x.Prelude.{
  ℕ, zero, suc, String, Bool, true, false, not, Option, none, some, List, [], ◌∷◌, ◌++◌, any,
  str_eq, is_some, if◌then◌else◌,
}
use inference_x.Schemas.{
  ChatCompletionRequest, ChatStreamChunk, ChatCompletionUsage, EngineTiming, FinishReason,
  ResolvedRequest, ResponseWarning, StreamOptions,
}
use inference_x.Admission.{AdmissionResult}
use inference_x.Chat.{effective_request, resolved}

-- The payload of an event, and the last line `data: the end marker`.
pub data SseEvent : Type 0 where
  prologue : ResolvedRequest → List ResponseWarning → SseEvent
  content : String → SseEvent
  terminal : FinishReason → SseEvent
  usage_event : ChatCompletionUsage → Option EngineTiming → SseEvent
  timeout_error : SseEvent
  done : SseEvent

-- One `__anext__`: a chunk, a wait longer than the per-token timeout, or an exception.
pub data EngineStep : Type 0 where
  yields : ChatStreamChunk → EngineStep
  stalls : EngineStep
  fails : EngineStep

-- How the loop is left: by a `break`, or by an exception.
pub data Ending : Type 0 where
  broke raised : Ending

-- What `await gen.aclose()` does: it returns, or it raises (or is cancelled).
pub data Closing : Type 0 where
  closed close_fails : Closing

pub data Action : Type 0 where
  emit : SseEvent → Action
  open_generator close_generator release : Action

-- The events of one chunk, in the order of the loop's body.
unfoldable pub content_events : ChatStreamChunk → List SseEvent
content_events c = if str_eq c.content "" then [] else content c.content ∷ []

unfoldable pub usage_events : Bool → ChatStreamChunk → List SseEvent
usage_events include_usage c = elim c.usage [
  | none ↦ []
  | some u ↦ if include_usage then usage_event u c.timing ∷ [] else []
]

unfoldable pub finish_events : Bool → ChatStreamChunk → List SseEvent
unfolding usage_events
finish_events include_usage c = elim c.finish_reason [
  | none ↦ []
  | some f ↦ terminal f ∷ usage_events include_usage c
]

unfoldable pub chunk_events : Bool → ChatStreamChunk → List SseEvent
unfolding content_events finish_events
chunk_events include_usage c = content_events c ++ finish_events include_usage c

-- The `while True` loop: its events, and how it is left.
unfoldable pub loop_events : Bool → List EngineStep → List SseEvent
unfolding chunk_events
loop_events include_usage [] = []
loop_events include_usage (yields c ∷ steps) =
    chunk_events include_usage c ++ loop_events include_usage steps
loop_events include_usage (stalls ∷ steps) = timeout_error ∷ []
loop_events include_usage (fails ∷ steps) = []

unfoldable pub loop_ending : List EngineStep → Ending
loop_ending [] = broke
loop_ending (yields c ∷ steps) = loop_ending steps
loop_ending (stalls ∷ steps) = broke
loop_ending (fails ∷ steps) = raised

-- `bool(request.stream_options and request.stream_options.include_usage)`
unfoldable pub include_usage_of : ChatCompletionRequest → Bool
include_usage_of request = elim request.stream_options [ none ↦ false | some o ↦ o.include_usage ]

abbrev pub emits : List SseEvent → List Action
emits [] = []
emits (e ∷ es) = emit e ∷ emits es

unfoldable pub prologue_event : ChatCompletionRequest → AdmissionResult → SseEvent
unfolding effective_request resolved
prologue_event request admitted =
    prologue (resolved (effective_request request admitted)) admitted.warnings

-- The actions inside the `try`.
unfoldable pub try_actions : ChatCompletionRequest → AdmissionResult → List EngineStep → List Action
unfolding prologue_event loop_events include_usage_of
try_actions request admitted steps =
    emit (prologue_event request admitted)
    ∷ open_generator
    ∷ emits (loop_events (include_usage_of request) steps)

-- The consumer takes `n` events and then closes the generator: the actions up to its last event.
-- `none` if the consumer takes more than there are.
unfoldable pub closed_after : ℕ → List Action → Option (List Action)
closed_after zero acts = some []
closed_after (suc n) [] = none
closed_after (suc n) (emit e ∷ acts) = elim (closed_after n acts) [
  | none ↦ none
  | some pre ↦ some (emit e ∷ pre)
]
closed_after (suc n) (a ∷ acts) = elim (closed_after (suc n) acts) [
  | none ↦ none
  | some pre ↦ some (a ∷ pre)
]

abbrev pub opened : List Action → Bool
opened = any (λ a. elim a [ open_generator ↦ true | _ ↦ false ])

-- The `finally`: `if gen is not None: await gen.aclose()`, and then the release, unless that raises.
unfoldable pub finally_actions : Closing → List Action → List Action
finally_actions closing acts =
    if opened acts
    then close_generator ∷ (elim closing [ closed ↦ release ∷ [] | close_fails ↦ [] ])
    else release ∷ []

-- After the `finally`, if it raises nothing: the generator was opened in a run to the end.
abbrev pub after_try : Closing → Ending → List Action
after_try closed broke = emit done ∷ []
after_try closed raised = []
after_try close_fails ending = []

-- A whole run: to its end (`none`), or until the consumer closes it after `n` + 1 events.
unfoldable pub run_to_end :
    ChatCompletionRequest → AdmissionResult → List EngineStep → Closing → List Action
unfolding try_actions finally_actions loop_ending
run_to_end request admitted steps closing =
    let acts = try_actions request admitted steps in
    acts ++ (finally_actions closing acts ++ after_try closing (loop_ending steps))

unfoldable pub trace :
    ChatCompletionRequest → AdmissionResult → List EngineStep → Option ℕ → Closing → List Action
unfolding run_to_end closed_after
trace request admitted steps none closing = run_to_end request admitted steps closing
trace request admitted steps (some n) closing =
    elim (closed_after (suc n) (try_actions request admitted steps)) [
      | none ↦ run_to_end request admitted steps closing
      | some pre ↦ pre ++ finally_actions closing pre
    ]
