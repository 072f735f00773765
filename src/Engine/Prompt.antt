-- ===== src/Engine/Prompt.antt =====
-- `VLLMEngine`'s prompt, its token count, and the sampling parameters of a request. The tokenizer is
-- an argument: what `get_tokenizer`, `apply_chat_template` and `encode` return, none if they raise.
use Prim.Native.String.{◌++◌ as text_append, count}
use inference_x.Prelude.{
  ℕ, suc, ◌/◌, max, String, Bool, true, false, Option, none, some, List, [], ◌∷◌, ◌++◌, map, total,
  str_eq, not, if◌then◌else◌,
}
use inference_x.Prelude.Int.{ℤ}
use inference_x.Schemas.{system, user, assistant, ChatMessage, ChatCompletionRequest, Fraction}

pub record Tokenizer : Type 0 where
  pub chat_template : Option String
  pub apply_chat_template : List ChatMessage → Option String
  pub encode : String → Option (List ℕ)

-- `bool(getattr(tok, "chat_template", None))`, false if `get_tokenizer` raises.
unfoldable pub detect_chat_support : Option Tokenizer → Bool
detect_chat_support none = false
detect_chat_support (some tokenizer) = elim tokenizer.chat_template [
  | none ↦ false
  | some template ↦ not (str_eq template "")
]

unfoldable pub prompt_line : ChatMessage → String
prompt_line m = elim m.role [
  | system ↦ text_append "System: " m.content
  | user ↦ text_append "User: " m.content
  | assistant ↦ text_append "Assistant: " m.content
]

-- `"\n".join(lines)`
abbrev pub join_lines : List String → String
join_lines [] = ""
join_lines (s ∷ []) = s
join_lines (s ∷ t ∷ ss) = text_append s (text_append "\n" (join_lines (t ∷ ss)))

unfoldable pub messages_to_prompt : List ChatMessage → String
unfolding prompt_line
messages_to_prompt messages = join_lines (map prompt_line messages ++ ("Assistant:" ∷ []))

unfoldable pub stream_prompt : Bool → Option Tokenizer → ChatCompletionRequest → String
unfolding messages_to_prompt
stream_prompt false tokenizer request = messages_to_prompt request.messages
stream_prompt true none request = messages_to_prompt request.messages
stream_prompt true (some tokenizer) request =
    elim (tokenizer.apply_chat_template request.messages) [
      | none ↦ messages_to_prompt request.messages
      | some prompt ↦ prompt
    ]

-- The estimate when tokenization fails: a token for four characters, and at least one.
unfoldable pub estimated_tokens : List ChatMessage → ℕ
estimated_tokens messages = max 1 (total (λ m. count m.content) messages / 4)

abbrev length_of : List ℕ → ℕ
length_of [] = 0
length_of (i ∷ ids) = suc (length_of ids)

unfoldable pub count_prompt_tokens : Bool → Option Tokenizer → ChatCompletionRequest → ℕ
unfolding stream_prompt estimated_tokens
count_prompt_tokens supports_chat none request = estimated_tokens request.messages
count_prompt_tokens supports_chat (some tokenizer) request =
    elim (tokenizer.encode (stream_prompt supports_chat (some tokenizer) request)) [
      | none ↦ estimated_tokens request.messages
      | some ids ↦ length_of ids
    ]

-- The settings of an engine that its sampling parameters depend on.
pub record SamplingDefaults : Type 0 where
  pub max_completion_tokens : Option ℕ
  pub instruction_tuned : Bool
  pub repetition_penalty : Option Fraction

-- The keyword arguments of vLLM's `SamplingParams`: none if one is not given.
pub record SamplingParams : Type 0 where
  pub temperature : Fraction
  pub max_tokens : ℕ
  pub top_p : Fraction
  pub repetition_penalty : Option Fraction
  pub seed : Option ℤ

abbrev or_else {ℓ} : {A : Type ℓ} → Option A → A → A
or_else none d = d
or_else (some x) _ = x

unfoldable pub resolve_max_tokens : SamplingDefaults → ChatCompletionRequest → ℕ
resolve_max_tokens engine request = elim engine.max_completion_tokens [
  | some n ↦ n
  | none ↦ or_else request.max_tokens 512
]

abbrev hundredths : ℕ → Fraction
hundredths n = record { num = n; den = 100 }

unfoldable pub sampling_params : SamplingDefaults → ChatCompletionRequest → SamplingParams
unfolding resolve_max_tokens
sampling_params engine request = record {
  temperature = or_else request.temperature (hundredths 70);
  max_tokens = resolve_max_tokens engine request;
  top_p = or_else request.top_p (hundredths 95);
  repetition_penalty =
      if engine.instruction_tuned
      then none
      else some (or_else engine.repetition_penalty (hundredths 115));
  seed = request.seed;
}
