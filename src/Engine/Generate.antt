-- ===== src/Engine/Generate.antt =====
-- `VLLMEngine.generate`: the same chunks, collected under one timeout.
pub mod Agreement
pub mod Client
use Prim.Native.String.{◌++◌ as text_append}
use inference_x.Prelude.{
  ℕ, String, Bool, true, false, Option, none, some, List, [], ◌∷◌, ◌++◌, str_eq, leb, if◌then◌else◌,
}
use inference_x.Schemas.{
  ChatStreamChunk, ChatCompletionUsage, EngineTiming, FinishReason, stop, error,
  ChatCompletionResponse,
}
use inference_x.Chat.Complete.{Generation, responds, raises}
use inference_x.Engine.Chunks.{BackendStep, ChunkStep, gave, failed, stream_chunks}

-- `_COMPLETION_TIMEOUT_S`, in thousandths of a second.
abbrev pub completion_timeout : ℕ
completion_timeout = 300000

-- The RuntimeErrors, with the text that is not of this module, and the AssertionError.
pub data GenerateError : Type 0 where
  not_loaded timed_out no_usage : GenerateError
  streaming_failed : String → GenerateError

-- The local variables of the loop.
pub record Collected : Type 0 where
  pub generated_parts : List String
  pub finish : FinishReason
  pub usage : Option ChatCompletionUsage
  pub timing : Option EngineTiming

unfoldable pub nothing_yet : Collected
nothing_yet = record { generated_parts = []; finish = stop; usage = none; timing = none }

-- `"".join(parts)`
abbrev pub concat : List String → String
concat [] = ""
concat (s ∷ ss) = text_append s (concat ss)

-- `"length" if chunk.finish_reason == "length" else "stop"`
unfoldable pub narrow : FinishReason → FinishReason
narrow stop = stop
narrow FinishReason.length = FinishReason.length
narrow error = stop

unfoldable pub add_content : ChatStreamChunk → Collected → Collected
add_content chunk c =
    if str_eq chunk.content ""
    then c
    else record c { generated_parts = c.generated_parts ++ (chunk.content ∷ []) }

unfoldable pub add_terminal : ChatStreamChunk → Collected → Collected
unfolding narrow
add_terminal chunk c = elim chunk.finish_reason [
  | none ↦ c
  | some f ↦ record c { finish = narrow f; usage = chunk.usage; timing = chunk.timing }
]

-- The loop under `asyncio.timeout`: what arrives at the deadline or later comes too late.
unfoldable pub collect : Collected → List ChunkStep → Collected × Option GenerateError
unfolding add_content add_terminal
collect c [] = (c, none)
collect c (gave at chunk ∷ steps) =
    if leb completion_timeout at
    then (c, some timed_out)
    else collect (add_terminal chunk (add_content chunk c)) steps
collect c (failed at exc ∷ steps) =
    if leb completion_timeout at then (c, some timed_out) else (c, some (streaming_failed exc))

-- The response that is built after the loop.
unfoldable pub respond : String → Collected → Generation GenerateError
respond model_name c = elim c.usage [
  | none ↦ raises no_usage
  | some u ↦ responds (record {
    model = model_name;
    content = concat c.generated_parts;
    finish_reason = c.finish;
    usage = u;
    timing = c.timing;
    resolved = none;
    warnings = [];
  })
]

-- After the loop: its exception, or the response.
abbrev pub after_loop : String → Collected × Option GenerateError → Generation GenerateError
after_loop model_name (c, none) = respond model_name c
after_loop model_name (c, some e) = raises e

unfoldable pub generate : Bool → String → List BackendStep → Generation GenerateError
unfolding stream_chunks collect respond nothing_yet
generate false model_name steps = raises not_loaded
generate true model_name steps =
    after_loop model_name (collect nothing_yet (stream_chunks "" steps))
