-- ===== src/Engine/Chunks.antt =====
-- `VLLMEngine._stream_chunks` and `generate_stream`. What `AsyncLLM.generate` does is a list of
-- steps, each at a time (thousandths of a second after the call); the end of the list is the end of
-- the generator, right after the last step.
pub mod Rejoin
pub mod InTime
use Prim.Native.String.{◌++◌ as text_append, len, slice}
use text.Mathlib.Text.{starts_with}
use inference_x.Prelude.{
  ℕ, String, Bool, true, false, Option, none, some, List, [], ◌∷◌, ◌++◌, ◌+◌, ◌-◌, ◌&&◌, max, ltb,
  leb, str_eq, if◌then◌else◌,
}
use inference_x.Schemas.{ChatStreamChunk}
use inference_x.Chat.Stream.{EngineStep, yields, stalls, fails}
use inference_x.Engine.Output.{CompletionOutput, RequestOutput, derive_terminal_metadata}

pub data BackendStep : Type 0 where
  gives : ℕ → RequestOutput → BackendStep
  breaks : ℕ → String → BackendStep

-- What a consumer of `_stream_chunks` gets, with the time: a chunk, or the RuntimeError with its text.
pub data ChunkStep : Type 0 where
  gave : ℕ → ChatStreamChunk → ChunkStep
  failed : ℕ → String → ChunkStep

-- `x or ""`
abbrev pub or_empty : Option String → String
or_empty none = ""
or_empty (some s) = s

-- The text that is new after `previous`, or all of it if it does not go on from there.
unfoldable pub delta : String → String → String
delta previous text =
    if starts_with text previous then slice text (len previous) (len text) else text

unfoldable pub content_chunk : ℕ → String → List ChunkStep
content_chunk at chunk =
    if str_eq chunk ""
    then []
    else gave at (record { content = chunk; finish_reason = none; usage = none; timing = none })
      ∷ []

unfoldable pub terminal_chunk : ℕ → RequestOutput → CompletionOutput → List ChunkStep
unfolding derive_terminal_metadata
terminal_chunk at output completion =
    let m = derive_terminal_metadata output completion in
    if output.finished
    then gave at (record {
      content = "";
      finish_reason = some m.finish;
      usage = some m.usage;
      timing = m.timing;
    })
      ∷ []
    else []

-- The loop of `_stream_chunks`, from a `previous_text` on.
unfoldable pub stream_chunks : String → List BackendStep → List ChunkStep
unfolding delta content_chunk terminal_chunk
stream_chunks previous [] = []
stream_chunks previous (breaks at exc ∷ steps) =
    failed at (text_append "vLLM streaming generation failed: " exc) ∷ []
stream_chunks previous (gives at output ∷ steps) = elim output.outputs [
  | [] ↦ stream_chunks previous steps
  | completion ∷ _ ↦
      let text = or_empty completion.text in
      content_chunk at (delta previous text)
      ++ (terminal_chunk at output completion ++ stream_chunks text steps)
]

unfoldable pub generate_stream : Bool → List BackendStep → List ChunkStep
unfolding stream_chunks
generate_stream false steps =
    gave 0 (record {
      content = "Streaming not available (vLLM not loaded)";
      finish_reason = none;
      usage = none;
      timing = none;
    })
    ∷ []
generate_stream true steps = stream_chunks "" steps

-- What each `__anext__` of a stream does, for a consumer that waits without a limit.
abbrev pub seen : List ChunkStep → List EngineStep
seen [] = []
seen (gave at chunk ∷ steps) = yields chunk ∷ seen steps
seen (failed at exc ∷ steps) = fails ∷ seen steps

-- The wait from `now` for a step at a time is as long as the timeout or longer; 0 stands for no timeout.
abbrev pub times_out : ℕ → ℕ → ℕ → Bool
times_out timeout now at = ltb 0 timeout && leb timeout (at - now)

-- What the chat service sees at each `__anext__`, from one at `now` on: it waits for `timeout` at most,
-- and after a chunk that it has at a time `t` it is back for the next one `delay t` later.
unfoldable pub awaited : ℕ → (ℕ → ℕ) → ℕ → List ChunkStep → List EngineStep
awaited timeout delay now [] = []
awaited timeout delay now (gave at chunk ∷ steps) =
    let rest = awaited timeout delay (max now at + delay (max now at)) steps in
    if times_out timeout now at then stalls ∷ [] else yields chunk ∷ rest
awaited timeout delay now (failed at exc ∷ steps) =
    let rest = awaited timeout delay (max now at + delay (max now at)) steps in
    if times_out timeout now at then stalls ∷ [] else fails ∷ rest
