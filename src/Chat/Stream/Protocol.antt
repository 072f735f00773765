-- ===== src/Chat/Stream/Protocol.antt =====
-- The order of the events on the wire.
use mathlib.Core.List.{append-nil, append_assoc, map}
use inference_x.Prelude.{
  ◌≡◌, refl, ap, ap₂, false, if◌then◌else◌, ◌∙◌, String, Bool, Option, none, some, List, [], ◌∷◌,
  ◌++◌, ◌≢◌, inl, inr, eq_iff, str_eq, All, Bool-cases,
}
use inference_x.Schemas.{
  ChatCompletionRequest, ChatStreamChunk, ChatCompletionUsage, EngineTiming, FinishReason,
  StreamOptions, ResolvedRequest,
}
use inference_x.Chat.{effective_request, resolved}
use inference_x.Admission.{AdmissionResult}
use inference_x.Chat.Stream.{
  SseEvent, prologue, content, usage_event, Closing, closed, close_fails, raised, terminal,
  timeout_error, done, EngineStep, yields, stalls, fails, Action, emit, loop_ending, emits,
  loop_events, include_usage_of, prologue_event, finally_actions, after_try, trace, usage_events,
}

-- What the client receives.
abbrev pub emitted : List Action → List SseEvent
emitted [] = []
emitted (emit e ∷ acts) = e ∷ emitted acts
emitted (a ∷ acts) = emitted acts

-- A content chunk of the engine, and its last chunk.
abbrev pub text_chunk : String → ChatStreamChunk
text_chunk s = record { content = s; finish_reason = none; usage = none; timing = none }

abbrev pub last_chunk :
    FinishReason → Option ChatCompletionUsage → Option EngineTiming → ChatStreamChunk
last_chunk f u t = record { content = ""; finish_reason = some f; usage = u; timing = t }

abbrev pub texts : List String → List EngineStep → List EngineStep
texts [] rest = rest
texts (s ∷ ss) rest = yields (text_chunk s) ∷ texts ss rest

emitted-emits :
    (es : List SseEvent) (rest : List Action) → emitted (emits es ++ rest) ≡ es ++ emitted rest
emitted-emits [] rest = refl
emitted-emits (e ∷ es) rest = ap (◌∷◌ e) (emitted-emits es rest)

loop_events-texts :
    (u : Bool) (ss : List String) (rest : List EngineStep)
    → All (λ s. s ≢ "") ss
    → loop_events u (texts ss rest) ≡ map content ss ++ loop_events u rest
unfolding loop_events
loop_events-texts u [] rest h = refl
loop_events-texts u (s ∷ ss) rest h = elim (Bool-cases (str_eq s "")) [
  | inl e ↦ absurd (h.0 ((eq_iff s "").0 e))
  | inr e ↦ rw e (ap (◌∷◌ (content s)) (loop_events-texts u ss rest h.1))
]

loop_ending-texts :
    (ss : List String) (rest : List EngineStep) → loop_ending (texts ss rest) ≡ loop_ending rest
unfolding loop_ending
loop_ending-texts [] rest = refl
loop_ending-texts (s ∷ ss) rest = loop_ending-texts ss rest

-- After an exception nothing is sent.
nothing_after : (closing : Closing) → emitted (after_try closing raised) ≡ []
nothing_after closed = refl
nothing_after close_fails = refl

-- What a request was resolved to: itself, with the limit of tokens that was admitted.
abbrev pub echo : ChatCompletionRequest → AdmissionResult → ResolvedRequest
echo request admitted = record {
  model = request.model;
  temperature = request.temperature;
  max_tokens = some admitted.effective_max_tokens;
  top_p = request.top_p;
  max_context_tokens = request.max_context_tokens;
  max_output_tokens = request.max_output_tokens;
  priority = request.priority;
  seed = request.seed;
}

-- The usage event, with the timing, for a client that asked and an engine that accounted usage.
abbrev pub usage_if_asked :
    Option StreamOptions → Option ChatCompletionUsage → Option EngineTiming → List SseEvent
usage_if_asked none u t = []
usage_if_asked (some o) none t = []
usage_if_asked (some o) (some u) t = if o.include_usage then usage_event u t ∷ [] else []

module _ (request : ChatCompletionRequest) (admitted : AdmissionResult) where
  abbrev wants_usage : Bool
  wants_usage = include_usage_of request

  -- What a run to its end emits.
  emitted-run :
      (steps : List EngineStep) (closing : Closing)
      → emitted (trace request admitted steps none closing)
        ≡ prologue_event request admitted
          ∷ (loop_events wants_usage steps ++ emitted (after_try closing (loop_ending steps)))
  unfolding trace finally_actions
  emitted-run steps closed =
      ap (◌∷◌ (prologue_event request admitted)) (emitted-emits (loop_events wants_usage steps) _)
  emitted-run steps close_fails =
      ap (◌∷◌ (prologue_event request admitted)) (emitted-emits (loop_events wants_usage steps) _)

  echoed : prologue_event request admitted ≡ prologue (echo request admitted) admitted.warnings
  unfolding prologue_event effective_request resolved
  echoed = refl

  accounted :
      (f : FinishReason) (u : Option ChatCompletionUsage) (t : Option EngineTiming)
      → usage_events wants_usage (last_chunk f u t) ≡ usage_if_asked request.stream_options u t
  unfolding usage_events include_usage_of
  accounted f u t = on_options request.stream_options u
    where
      on_options :
          (o : Option StreamOptions) (u : Option ChatCompletionUsage)
          → (elim u as (λ _. List SseEvent) [
            | none ↦ []
            | some v ↦
                if (elim o [ none ↦ false | some x ↦ x.include_usage ])
                then usage_event v t ∷ []
                else []
          ])
            ≡ usage_if_asked o u t
      on_options none none = refl
      on_options none (some v) = refl
      on_options (some x) none = refl
      on_options (some x) (some v) = refl

  -- With an engine that keeps its contract, nonempty texts and then one last chunk, and a generator
  -- that closes, the client gets one prologue, which says what the request was resolved to with the
  -- admitted limit of tokens and the warnings of its admission, the texts in order, one terminal
  -- event, the usage event with the timing exactly if it asked for it and the engine accounted usage,
  -- and the end marker.
  pub stream_protocol :
      (ss : List String) (f : FinishReason) (u : Option ChatCompletionUsage)
      (t : Option EngineTiming)
      → All (λ s. s ≢ "") ss
      → emitted (trace request admitted (texts ss (yields (last_chunk f u t) ∷ [])) none closed)
        ≡ prologue (echo request admitted) admitted.warnings
          ∷ (map content ss
              ++ (terminal f ∷ (usage_if_asked request.stream_options u t ++ done ∷ [])))
  unfolding loop_events loop_ending
  stream_protocol ss f u t h =
      emitted-run (texts ss (yields (last_chunk f u t) ∷ [])) closed
      ∙ ap₂ ◌∷◌ echoed (
          rw
            (
              loop_events-texts wants_usage ss (yields (last_chunk f u t) ∷ []) h,
              loop_ending-texts ss (yields (last_chunk f u t) ∷ []),
            )
            (simp (append_assoc, accounted f u t)))

  -- When the engine stalls after some texts, and its generator closes, the client gets the timeout error
  -- and the end marker, and no terminal or usage event, whatever the engine would do next; when it
  -- raises, the stream just ends, however the generator closes.
  pub stream_interrupted :
      (ss : List String) (rest : List EngineStep) (closing : Closing)
      → All (λ s. s ≢ "") ss
      → (emitted (trace request admitted (texts ss (stalls ∷ rest)) none closed)
          ≡ prologue_event request admitted ∷ (map content ss ++ (timeout_error ∷ done ∷ [])))
        × (emitted (trace request admitted (texts ss (fails ∷ rest)) none closing)
            ≡ prologue_event request admitted ∷ map content ss)
  unfolding loop_events loop_ending
  stream_interrupted ss rest closing h = (
    emitted-run (texts ss (stalls ∷ rest)) closed
        ∙ ap (◌∷◌ (prologue_event request admitted)) (
            rw
              (
                loop_events-texts wants_usage ss (stalls ∷ rest) h,
                loop_ending-texts ss (stalls ∷ rest),
              )
              (simp append_assoc)),
    emitted-run (texts ss (fails ∷ rest)) closing
        ∙ ap (◌∷◌ (prologue_event request admitted)) (
            rw
              (
                loop_events-texts wants_usage ss (fails ∷ rest) h,
                loop_ending-texts ss (fails ∷ rest),
                nothing_after closing,
              )
              (simp append-nil)),
  )
