-- ===== src/Tests/Serving.antt =====
-- The engine at a run of two outputs, on a GPU of 8 GiB.
use Prim.Native.String.{String}
use inference_x.Prelude.{
  ◌*◌, ◌≡◌, ◌≢◌, inr, refl, true, false, Option, none, some, List, [], ◌∷◌, ◌++◌, map, arith, All,
}
use inference_x.Schemas.{auto}
use inference_x.Chat.Complete.{responds}
use inference_x.Chat.Stream.{prologue, content, terminal, done, closed, trace}
use inference_x.Chat.Stream.Protocol.{emitted, texts, echo, usage_if_asked}
use inference_x.Engine.Output.{CompletionOutput, RequestOutput, derive_terminal_metadata}
use inference_x.Engine.Chunks.{
  BackendStep, gives, or_empty, stream_chunks, generate_stream, seen, awaited, content_chunk,
  terminal_chunk, delta,
}
use inference_x.Engine.Chunks.InTime.{InTime}
use inference_x.Engine.Chunks.Rejoin.{contents, final_text, stream-rejoins}
use inference_x.Engine.Generate.{concat, generate}
use inference_x.Engine.Generate.Agreement.{terminal_step, response_of, generate-agrees}
use inference_x.Engine.Generate.Client.{client_gets_completion}
use inference_x.Engine.InitError.{state_cache, contains, map_vllm_init_error}
use inference_x.Engine.InitError.Order.{mamba_advice_unreached}
use inference_x.Engine.Load.Start.{EngineSettings, Machine, started, VllmEngine}
use inference_x.Sizing.{estimate_weight}
use inference_x.Sizing.Utilization.{
  user_util_cap, SizedModel, single_engine_utilization, hundredth_gib,
}
use inference_x.Sizing.Utilization.Bounds.{Sized, single_engine_utilization-Sized}
use inference_x.Tests.{modest, as_asked}
use inference_x.Tests.Choosing.{outside}

abbrev completion_of : String → Option String → CompletionOutput
completion_of text reason = record {
  text = some text;
  finish_reason = reason;
  token_ids = some (1 ∷ 2 ∷ []);
}

abbrev first_output : RequestOutput
first_output = record {
  outputs = completion_of "Hel" none ∷ [];
  prompt_token_ids = some (7 ∷ []);
  finished = false;
  metrics = none;
}

abbrev pub last_completion : CompletionOutput
last_completion = completion_of "Hello" (some "stop")

abbrev pub last_output : RequestOutput
last_output = record {
  outputs = last_completion ∷ [];
  prompt_token_ids = some (7 ∷ []);
  finished = true;
  metrics = none;
}

abbrev pub before_last : List BackendStep
before_last = gives 40 first_output ∷ []

abbrev pub whole_run : List BackendStep
whole_run = before_last ++ (gives 90 last_output ∷ [])

stream-rejoins_example : concat (contents (stream_chunks "" whole_run)) ≡ final_text "" whole_run
stream-rejoins_example = stream-rejoins whole_run (refl, (refl, refl))

generate-agrees_example :
    (ss : List String) × All (λ s. s ≢ "") ss
    × (seen (generate_stream true whole_run)
        ≡ texts ss (terminal_step (derive_terminal_metadata last_output last_completion) ∷ []))
    × (generate true "small" whole_run
        ≡ responds (
            response_of "small" (concat ss) (derive_terminal_metadata last_output last_completion)))
generate-agrees_example =
    generate-agrees "small" before_last 90 last_output last_completion [] ((refl, refl), tt) refl
      refl refl

pub whole_run-InTime : InTime 120000 0 (generate_stream true whole_run)
unfolding generate_stream stream_chunks content_chunk terminal_chunk delta
whole_run-InTime = (inr (omega arith), (inr (omega arith), (inr (omega arith), tt)))

client_gets_completion_example :
    (ss : List String) × All (λ s. s ≢ "") ss
    × (concat ss ≡ or_empty last_completion.text)
    × (emitted (
          trace modest as_asked
            (awaited 120000 (λ t. 5) 0 (generate_stream true whole_run))
            none
            closed)
        ≡ prologue (echo modest as_asked) as_asked.warnings
          ∷ (map content ss
              ++ (terminal (derive_terminal_metadata last_output last_completion).finish
                  ∷ (usage_if_asked modest.stream_options
                        (some (derive_terminal_metadata last_output last_completion).usage)
                        (derive_terminal_metadata last_output last_completion).timing
                      ++ done ∷ []))))
    × (generate true "small" whole_run
        ≡ responds (
            response_of "small"
              (or_empty last_completion.text)
              (derive_terminal_metadata last_output last_completion)))
client_gets_completion_example =
    client_gets_completion modest as_asked "small" 120000 (λ t. 5) before_last 90 last_output
      last_completion [] ((refl, refl), tt) refl refl refl (refl, (refl, refl)) whole_run-InTime

abbrev failure : String
failure = "Too few Mamba cache blocks"

abbrev failure_in_lower_case : String
failure_in_lower_case = "too few mamba cache blocks"

mamba_advice_unreached_example :
    map_vllm_init_error (λ s. failure_in_lower_case) "small" none failure ≢ state_cache
unfolding contains
mamba_advice_unreached_example =
    mamba_advice_unreached (λ s. failure_in_lower_case) "small" none failure refl

abbrev small_model : SizedModel
small_model = record {
  model_path = "org/Small-1B";
  max_model_len = some 2048;
  quantization = none;
  gpu_memory_utilization = some auto;
}

single_engine_utilization-Sized_example :
    Sized
      (estimate_weight outside "org/Small-1B" none)
      (800 * hundredth_gib)
      (700 * hundredth_gib)
      (single_engine_utilization outside small_model
        (800 * hundredth_gib)
        (some (700 * hundredth_gib)))
unfolding user_util_cap
single_engine_utilization-Sized_example =
    single_engine_utilization-Sized outside small_model (800 * hundredth_gib) (700 * hundredth_gib)
      (omega arith) tt

abbrev small_settings : EngineSettings
small_settings = record {
  name = some "small";
  model_path = some "org/Small-1B";
  quantization = none;
  gpu_memory_utilization = some auto;
  max_model_len = some 2048;
  max_num_seqs = some 4;
  max_num_batched_tokens = none;
  block_size = some 16;
  kv_cache_dtype = none;
  enable_prefix_caching = some true;
  max_completion_tokens = none;
  instruction_tuned = some true;
  repetition_penalty = none;
}

abbrev pub machine : Machine
machine = record {
  vllm_available = true;
  outside = outside;
  hub = none;
  is_absolute = λ path. false;
  hf_token = none;
  probe_first = none;
  probe_now = some (record { free_gib = 700; total_gib = 800 });
  start_vllm = λ kwargs. started (some 100) (some 16) none;
}

abbrev pub ready : VllmEngine
ready = record {
  model_name = "small";
  model_path = "org/Small-1B";
  sampling = record {
    max_completion_tokens = none;
    instruction_tuned = true;
    repetition_penalty = none;
  };
  kv_capacity_tokens = some 1600;
  supports_chat = false;
  healthy = true;
  running = true;
}
