-- ===== src/Tests.antt =====
-- Concrete data, and the theorems at it.
pub mod Admitting
pub mod Chatting
pub mod Reporting
pub mod Choosing
pub mod Serving
pub mod Playing
pub mod Starting
use inference_x.Prelude.{ℕ, String, Bool, true, false, Option, none, some, List, [], ◌∷◌}
use inference_x.Prelude.Dict.{Dict}
use inference_x.Schemas.{
  auto, Fraction, ChatMessage, user, Priority, interactive, batch, ChatCompletionRequest,
  ModelEntry, StreamOptions,
}
use inference_x.Registry
use inference_x.Registry.{ModelRegistry}
use inference_x.Tiers.{VramTier}
use inference_x.Admission.{AdmissionResult, Config, Engine}

abbrev pub small : ModelEntry
small = record {
  name = "small";
  model_path = "org/Small-1B";
  family = some "family";
  max_model_len = some 2048;
  max_num_seqs = some 1;
  max_num_batched_tokens = none;
  quantization = none;
  gpu_memory_utilization = some auto;
  instruction_tuned = true;
  max_completion_tokens = none;
  repetition_penalty = none;
}

abbrev pub large : ModelEntry
large = record small { name = "large"; max_model_len = none; quantization = some "awq" }

abbrev pub low_tier : VramTier
low_tier = record {
  name = "low";
  min_vram = 600;
  utilization_ceiling = 90;
  max_model_len_cap = 4096;
  max_num_seqs = 2;
  block_size = 16;
  kv_cache_dtype = "auto";
  max_num_batched_tokens = none;
  enable_prefix_caching = true;
}

abbrev pub high_tier : VramTier
high_tier = record low_tier { name = "high"; min_vram = 2400; max_num_seqs = 8 }

abbrev pub registry : ModelRegistry
registry = record { models = ("small", small) ∷ ("large", large) ∷ [] }

abbrev pub config : Config
config = record {
  registry = registry;
  tier = some low_tier;
  kv_safety_margin = record { num = 9; den = 10 };
  batch_waiter_multiplier = 2;
}

abbrev pub engine : Engine
engine = record { count_prompt_tokens = λ r. some 100; kv_capacity_tokens = some 1000 }

abbrev pub asking : Option ℕ → Priority → ChatCompletionRequest
asking n p = record {
  model = "small";
  messages = record { role = user; content = "hello" } ∷ [];
  temperature = none;
  max_tokens = n;
  top_p = none;
  stream = true;
  max_context_tokens = none;
  max_output_tokens = none;
  priority = p;
  stream_options = some (record { include_usage = true });
  seed = none;
  strict = false;
}

-- 300 tokens, at once; and as many, in batch.
abbrev pub modest : ChatCompletionRequest
modest = asking (some 300) interactive

abbrev pub patient : ChatCompletionRequest
patient = asking (some 300) batch

-- More than the KV budget of 900 tokens leaves.
abbrev pub greedy : ChatCompletionRequest
greedy = asking (some 1000) interactive

abbrev pub as_asked : AdmissionResult
as_asked = record { effective_max_tokens = 300; reserved_tokens = 400; warnings = [] }
