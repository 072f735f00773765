-- ===== src/Engine/Output.antt =====
-- What `AsyncLLM.generate` gives, and `derive_terminal_metadata` with `_derive_engine_timing`.
-- Timestamps are seconds in the source; here both they and the timings are whole thousandths of a
-- millisecond, so that the factor 1000 between them is in the unit.
use inference_x.Prelude.{
  ℕ, ◌+◌, String, Bool, Option, none, some, List, length, str_eq, if◌then◌else◌,
}
use inference_x.Prelude.Int.{ℤ, ◌+ℤ◌, ◌-ℤ◌}
use inference_x.Schemas.{FinishReason, stop, ChatCompletionUsage, EngineTiming}

-- One of `output.outputs`: `none` is a missing value.
pub record CompletionOutput : Type 0 where
  pub text : Option String
  pub finish_reason : Option String
  pub token_ids : Option (List ℕ)

-- `output.metrics`: a timestamp that is missing or not a number is `none`.
pub record RequestStats : Type 0 where
  pub queued_ts : Option ℤ
  pub scheduled_ts : Option ℤ
  pub first_token_ts : Option ℤ
  pub last_token_ts : Option ℤ

pub record RequestOutput : Type 0 where
  pub outputs : List CompletionOutput
  pub prompt_token_ids : Option (List ℕ)
  pub finished : Bool
  pub metrics : Option RequestStats

pub record TerminalMetadata : Type 0 where
  pub finish : FinishReason
  pub usage : ChatCompletionUsage
  pub timing : Option EngineTiming

-- `"stop" if completion.finish_reason in ("stop", None) else "length"`
unfoldable pub finish_of : Option String → FinishReason
finish_of none = stop
finish_of (some reason) = if str_eq reason "stop" then stop else FinishReason.length

-- `len(ids) if ids else 0`
unfoldable pub count_of : Option (List ℕ) → ℕ
count_of none = 0
count_of (some ids) = length ids

abbrev timing_of : Option ℤ → Option ℤ → Option ℤ → Option ℤ → Option EngineTiming
timing_of (some queued) (some scheduled) (some first) (some last) = some (record {
  queue_time_ms = scheduled -ℤ queued;
  prefill_time_ms = first -ℤ scheduled;
  decode_time_ms = last -ℤ first;
  inference_time_ms = (first -ℤ scheduled) +ℤ (last -ℤ first);
})
timing_of _ _ _ _ = none

unfoldable pub derive_engine_timing : RequestOutput → Option EngineTiming
derive_engine_timing output = elim output.metrics [
  | none ↦ none
  | some m ↦ timing_of m.queued_ts m.scheduled_ts m.first_token_ts m.last_token_ts
]

-- `completion` is `output.outputs[0]`, which the caller has found.
unfoldable pub derive_terminal_metadata : RequestOutput → CompletionOutput → TerminalMetadata
unfolding finish_of count_of derive_engine_timing
derive_terminal_metadata output completion = record {
  finish = finish_of completion.finish_reason;
  usage = record {
    prompt_tokens = count_of output.prompt_token_ids;
    completion_tokens = count_of completion.token_ids;
    total_tokens = count_of output.prompt_token_ids + count_of completion.token_ids;
  };
  timing = derive_engine_timing output;
}
