-- ===== src/Engine/Load/Start.antt =====
-- `VLLMEngine.__init__`, `is_healthy` and `shutdown`. `AsyncLLM.from_engine_args` is an argument.
pub mod Ready
use Prim.Native.String.{String}
use inference_x.Prelude.{
  ℕ, ◌*◌, Bool, true, false, not, ◌&&◌, Option, none, some, ◌==◌, str_eq, if◌then◌else◌,
}
use inference_x.Schemas.{Ceiling, auto, at, Fraction}
use inference_x.Sizing.{Outside}
use inference_x.Sizing.Utilization.{hundredth_gib, SizedModel, user_util_cap, scale_model_config}
use inference_x.Engine.InitError.{InitError, map_vllm_init_error, CudaVram}
use inference_x.Engine.Load.{check_vram_budget}
use inference_x.Engine.Load.Access.{AccessError, HuggingFaceHub, preflight_hf_access}
use inference_x.Engine.Prompt.{SamplingDefaults, Tokenizer, detect_chat_support}

-- The keys of the model config.
pub record EngineSettings : Type 0 where
  pub name : Option String
  pub model_path : Option String
  pub quantization : Option String
  pub gpu_memory_utilization : Option Ceiling
  pub max_model_len : Option ℕ
  pub max_num_seqs : Option ℕ
  pub max_num_batched_tokens : Option ℕ
  pub block_size : Option ℕ
  pub kv_cache_dtype : Option String
  pub enable_prefix_caching : Option Bool
  pub max_completion_tokens : Option ℕ
  pub instruction_tuned : Option Bool
  pub repetition_penalty : Option Fraction

-- vLLM's keyword arguments, but for `dtype` and `trust_remote_code`, which are constant.
pub record EngineKwargs : Type 0 where
  pub model : String
  pub hf_token : Option String
  pub gpu_memory_utilization : Option Fraction
  pub max_model_len : Option ℕ
  pub max_num_seqs : Option ℕ
  pub max_num_batched_tokens : Option ℕ
  pub block_size : Option ℕ
  pub kv_cache_dtype : Option String
  pub enable_prefix_caching : Option Bool
  pub quantization : Option String

-- vLLM started, with the numbers of its cache config and its tokenizer, or it raised with a message.
pub data VllmStart : Type 0 where
  started : Option ℕ → Option ℕ → Option Tokenizer → VllmStart
  start_failed : String → VllmStart

pub data StartError : Type 0 where
  not_installed does_not_fit missing_keys over_budget : StartError
  no_access : AccessError → StartError
  init_failed : InitError → StartError

-- `self`: `running` is `self._llm is not None`.
pub record VllmEngine : Type 0 where
  pub model_name : String
  pub model_path : String
  pub sampling : SamplingDefaults
  pub kv_capacity_tokens : Option ℕ
  pub supports_chat : Bool
  pub healthy : Bool
  pub running : Bool

pub data Started : Type 0 where
  engine_ready : VllmEngine → Started
  engine_refused : StartError → Started

-- What the machine answers: vLLM is there, the Hub's client, `os.path.isabs`, `str.lower`, the
-- token, the probe before the sizing and the one before the start, and vLLM.
pub record Machine : Type 0 where
  pub vllm_available : Bool
  pub outside : Outside
  pub hub : Option HuggingFaceHub
  pub is_absolute : String → Bool
  pub hf_token : Option String
  pub probe_first : Option CudaVram
  pub probe_now : Option CudaVram
  pub start_vllm : EngineKwargs → VllmStart

abbrev or_blank : Option String → String
or_blank none = ""
or_blank (some s) = s

abbrev pub as_sized : EngineSettings → SizedModel
as_sized s = record {
  model_path = or_blank s.model_path;
  max_model_len = s.max_model_len;
  quantization = s.quantization;
  gpu_memory_utilization = s.gpu_memory_utilization;
}

abbrev or_8_gib : ℕ → ℕ
or_8_gib hundredths = if hundredths == 0 then 800 * hundredth_gib else hundredths * hundredth_gib

abbrev probed_total : Option CudaVram → ℕ
probed_total none = 800 * hundredth_gib
probed_total (some v) = or_8_gib v.total_gib

-- `total_vram_gib or _probe_cuda_vram().get("total_gib") or 8.0`, in hundredths of a byte.
unfoldable pub total_vram : Option ℕ → Option CudaVram → ℕ
total_vram none vram = probed_total vram
total_vram (some total) vram = if total == 0 then probed_total vram else total

-- `if model_config.get("quantization")`
abbrev nonblank : Option String → Option String
nonblank none = none
nonblank (some s) = if str_eq s "" then none else some s

unfoldable pub engine_kwargs : Option String → String → EngineSettings → EngineKwargs
unfolding user_util_cap
engine_kwargs hf_token path s = record {
  model = path;
  hf_token = hf_token;
  gpu_memory_utilization = user_util_cap (as_sized s);
  max_model_len = s.max_model_len;
  max_num_seqs = s.max_num_seqs;
  max_num_batched_tokens = s.max_num_batched_tokens;
  block_size = s.block_size;
  kv_cache_dtype = s.kv_cache_dtype;
  enable_prefix_caching = s.enable_prefix_caching;
  quantization = nonblank s.quantization;
}

-- `_log_kv_cache_stats`
unfoldable pub kv_capacity : Option ℕ → Option ℕ → Option ℕ
kv_capacity (some num_blocks) (some block_size) = some (num_blocks * block_size)
kv_capacity _ _ = none

abbrev or_true : Option Bool → Bool
or_true none = true
or_true (some b) = b

-- The engine that vLLM started, or the error its exception is turned into.
unfoldable pub after_start : Machine → String → String → EngineSettings → VllmStart → Started
unfolding kv_capacity detect_chat_support map_vllm_init_error
after_start machine name path s (started num_blocks block_size tokenizer) = engine_ready (record {
  model_name = name;
  model_path = path;
  sampling = record {
    max_completion_tokens = s.max_completion_tokens;
    instruction_tuned = or_true s.instruction_tuned;
    repetition_penalty = s.repetition_penalty;
  };
  kv_capacity_tokens = kv_capacity num_blocks block_size;
  supports_chat = detect_chat_support tokenizer;
  healthy = true;
  running = true;
})
after_start machine name path s (start_failed msg) =
    engine_refused
      (init_failed (map_vllm_init_error machine.outside.lowered name machine.probe_now msg))

-- The checks before the start: the access to the repository, and then the budget.
abbrev pub gated_by : Option AccessError → Bool → Started → Started
gated_by (some e) within_budget next = engine_refused (no_access e)
gated_by none false next = engine_refused over_budget
gated_by none true next = next

-- From the scaled config on.
unfoldable pub launch : Machine → String → String → EngineSettings → Started
unfolding preflight_hf_access engine_kwargs check_vram_budget after_start
launch machine name path s =
    let kwargs = engine_kwargs machine.hf_token path s in
    gated_by (preflight_hf_access machine.hub machine.is_absolute path machine.hf_token)
      (check_vram_budget kwargs.gpu_memory_utilization machine.probe_now)
      (after_start machine name path s (machine.start_vllm kwargs))

unfoldable pub with_keys : Machine → EngineSettings → Option String → Option String → Started
unfolding launch
with_keys machine s (some name) (some path) = launch machine name path s
with_keys machine s _ _ = engine_refused missing_keys

-- `__init__`, with the free and the total memory that it is given, in hundredths of a byte.
unfoldable pub init : Machine → EngineSettings → Option ℕ → Option ℕ → Started
unfolding scale_model_config total_vram with_keys
init machine s free total =
    if not machine.vllm_available
    then engine_refused not_installed
    else elim (scale_model_config machine.outside (as_sized s)
        (total_vram total machine.probe_first) free) [
          | none ↦ engine_refused does_not_fit
          | some sized ↦
              let scaled = record s { gpu_memory_utilization = sized.gpu_memory_utilization } in
              with_keys machine scaled scaled.name scaled.model_path
        ]

-- `errored` is `self._llm.errored`.
unfoldable pub is_healthy : Bool → VllmEngine → Bool
is_healthy errored engine = if engine.running && errored then false else engine.healthy

-- An exception of vLLM's own shutdown is logged only.
unfoldable pub shutdown : VllmEngine → VllmEngine
shutdown engine =
    if engine.running then record engine { healthy = false; running = false } else engine
