-- ===== src/Schemas.antt =====
-- src/inference_x/schemas/chat.py and schemas/model.py: the request, the Effective Request echo,
-- the warnings, the engine's stream chunk, and a configured model. A float that is only passed on
-- (temperature, top_p, repetition_penalty) is a `Fraction`, and a timing
-- is a number of thousandths of a millisecond. Human-readable texts that the
-- schemas call free to change (`ResponseWarning.message`, descriptions) are left out.
use inference_x.Prelude.{ℕ, String, Bool, Option, List}
use inference_x.Prelude.Int.{ℤ}

-- A nonnegative float, as a quotient of numbers.
pub record Fraction : Type 0 where
  pub num : ℕ
  pub den : ℕ

pub data Role : Type 0 where
  system user assistant : Role

pub record ChatMessage : Type 0 where
  pub role : Role
  pub content : String

pub record StreamOptions : Type 0 where
  pub include_usage : Bool

pub data Priority : Type 0 where
  interactive batch : Priority

pub record ChatCompletionRequest : Type 0 where
  pub model : String
  pub messages : List ChatMessage
  pub temperature : Option Fraction
  pub max_tokens : Option ℕ
  pub top_p : Option Fraction
  pub stream : Bool
  pub max_context_tokens : Option ℕ
  pub max_output_tokens : Option ℕ
  pub priority : Priority
  pub stream_options : Option StreamOptions
  pub seed : Option ℤ
  pub strict : Bool

pub data WarningType : Type 0 where
  substituted degraded : WarningType

pub record ResponseWarning : Type 0 where
  pub kind : WarningType
  pub code : String
  pub field : Option String

pub record ResolvedRequest : Type 0 where
  pub model : String
  pub temperature : Option Fraction
  pub max_tokens : Option ℕ
  pub top_p : Option Fraction
  pub max_context_tokens : Option ℕ
  pub max_output_tokens : Option ℕ
  pub priority : Priority
  pub seed : Option ℤ

pub data FinishReason : Type 0 where
  stop length error : FinishReason

pub record ChatCompletionUsage : Type 0 where
  pub prompt_tokens : ℕ
  pub completion_tokens : ℕ
  pub total_tokens : ℕ

-- In thousandths of a millisecond.
pub record EngineTiming : Type 0 where
  pub queue_time_ms : ℤ
  pub prefill_time_ms : ℤ
  pub decode_time_ms : ℤ
  pub inference_time_ms : ℤ

pub record ChatStreamChunk : Type 0 where
  pub content : String
  pub finish_reason : Option FinishReason
  pub usage : Option ChatCompletionUsage
  pub timing : Option EngineTiming

-- The fields of `ChatCompletionResponse` but for its `id`, `object` and `created`, which are fresh
-- names and the clock; the one choice's message and finish reason stand here directly.
pub record ChatCompletionResponse : Type 0 where
  pub model : String
  pub content : String
  pub finish_reason : FinishReason
  pub usage : ChatCompletionUsage
  pub timing : Option EngineTiming
  pub resolved : Option ResolvedRequest
  pub warnings : List ResponseWarning

-- `gpu_memory_utilization`, where it is given.
pub data Ceiling : Type 0 where
  auto : Ceiling
  at : Fraction → Ceiling

-- A configured model, but for `engine`, which has one value, and `gated`, which only a listing shows.
pub record ModelEntry : Type 0 where
  pub name : String
  pub model_path : String
  pub family : Option String
  pub max_model_len : Option ℕ
  pub max_num_seqs : Option ℕ
  pub max_num_batched_tokens : Option ℕ
  pub quantization : Option String
  pub gpu_memory_utilization : Option Ceiling
  pub instruction_tuned : Bool
  pub max_completion_tokens : Option ℕ
  pub repetition_penalty : Option Fraction
