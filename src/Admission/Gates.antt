-- ===== src/Admission/Gates.antt =====
-- Gates 2 and 3 of `AdmissionController.admit`: the context length and the KV budget. They run
-- without a suspension, so they are one function of the tokens that are reserved at that moment.
pub mod Bounds
pub mod Strict
pub mod Batch
use inference_x.Prelude.{
  ℕ, ◌+◌, ◌-◌, ◌*◌, ◌/◌, max, String, Bool, true, false, ◌||◌, Option, none, some, List, [], ◌∷◌,
  ◌++◌, leb, ltb, truthy_or, if◌then◌else◌,
}
use inference_x.Prelude.Int.{ℤ, pos, sub_ℕ, pos_part, ltb_ℤ}
use inference_x.Schemas.{
  ChatCompletionRequest, Fraction, Priority, interactive, batch, ResponseWarning,
}
use inference_x.Admission.{
  AdmitError, context_too_long, engine_saturated, strict_mode_violation, AdmissionResult, Engine,
  Config, prompt_tokens, context_ceiling, min_opt, min_clamped_output_tokens, kv_gate_skipped,
  max_tokens_clamped_to_context, max_tokens_clamped_to_kv_budget,
}

pub data Verdict {ℓ} (A : Type ℓ) : Type ℓ where
  pass : A → Verdict A
  reject : AdmitError → Verdict A

infixl 5 ◌>>=◌
abbrev pub ◌>>=◌ {ℓ κ} : {A : Type ℓ} {B : Type κ} → Verdict A → (A → Verdict B) → Verdict B
pass a >>= f = f a
reject e >>= f = reject e

abbrev pub is_batch : Priority → Bool
is_batch batch = true
is_batch interactive = false

-- `request.max_output_tokens or request.max_tokens or 512`
unfoldable pub requested_output : ChatCompletionRequest → ℕ
requested_output request = truthy_or request.max_output_tokens (truthy_or request.max_tokens 512)

-- The model's ceiling, and the request's own.
unfoldable pub request_ceiling : Config → String → ChatCompletionRequest → ℕ
request_ceiling c model request = min_opt (context_ceiling c model) request.max_context_tokens

-- The output length that fits the context window, with the warnings so far.
unfoldable pub context_gate :
    ℕ → ℕ → ℕ → Priority → Bool → List ResponseWarning → Verdict (ℕ × List ResponseWarning)
context_gate ceiling prompt requested priority strict warnings =
    let room = ceiling - prompt in
    if ltb ceiling prompt
    then reject context_too_long
    else if leb (prompt + requested) ceiling
    then pass (requested, warnings)
    else if is_batch priority || ltb room min_clamped_output_tokens
    then reject context_too_long
    else if strict
    then reject strict_mode_violation
    else pass (room, warnings ++ max_tokens_clamped_to_context ∷ [])

-- The output length that fits the KV budget. `available` counts `margin.den`-ths of a token.
unfoldable pub kv_gate :
    Option ℕ
    → Fraction
    → ℕ
    → ℕ
    → ℕ
    → Priority
    → Bool
    → List ResponseWarning
    → Verdict (ℕ × List ResponseWarning)
kv_gate none margin reserved_now prompt output priority strict warnings =
    pass (output, warnings ++ kv_gate_skipped ∷ [])
kv_gate (some capacity) margin reserved_now prompt output priority strict warnings =
    let budget = capacity * margin.num in
    let available = sub_ℕ budget ((reserved_now + prompt) * margin.den) in
    let clamped = max min_clamped_output_tokens (pos_part available / margin.den) in
    if ltb_ℤ available (pos (output * margin.den))
    then if is_batch priority || ltb_ℤ available (pos (min_clamped_output_tokens * margin.den))
      then reject (engine_saturated 1)
      else if strict
      then reject strict_mode_violation
      else pass (clamped, warnings ++ max_tokens_clamped_to_kv_budget ∷ [])
    else pass (output, warnings)

-- Gates 2 and 3 in the order of `admit`, from the warnings of gate 1.
unfoldable pub gates :
    Config
    → ℕ
    → String
    → ChatCompletionRequest
    → Engine
    → List ResponseWarning
    → Verdict AdmissionResult
gates c reserved_now model request engine warnings = do
  let counted = prompt_tokens engine request
  fitted ←
      context_gate (request_ceiling c model request) counted.0 (requested_output request)
        request.priority request.strict (warnings ++ counted.1)
  final ←
      kv_gate engine.kv_capacity_tokens c.kv_safety_margin reserved_now counted.0 fitted.0
        request.priority request.strict fitted.1
  pass (record {
    effective_max_tokens = final.0;
    reserved_tokens = counted.0 + final.0;
    warnings = final.1;
  })
