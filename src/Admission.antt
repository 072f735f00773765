-- ===== src/Admission.antt =====
-- src/inference_x/routing/admission.py: the admission controller. An engine is what admission asks
-- of it: a prompt-token count, if it can count, and its KV capacity, if it reports one. The safety
-- margin is an exact fraction: amounts of KV budget are counted in the `margin.den`-th part of a
-- token. The texts of exceptions and warnings are left out; a `retry_after_s` of 1.0 is 1.
pub mod Semaphore
pub mod Counter
pub mod Gates
pub mod Admit
pub mod System
use Prim.Native.String.{count}
use inference_x.Prelude.{
  ℕ, zero, suc, ◌+◌, ◌-◌, ◌*◌, ◌/◌, min, max, String, Bool, true, false, ◌||◌, Option, none, some,
  List, [], ◌∷◌, ◌++◌, leb, ltb, total, truthy_or, if◌then◌else◌,
}
use inference_x.Prelude.Dict
use inference_x.Prelude.Dict.{Dict}
use inference_x.Prelude.Int.{ℤ, pos, sub_ℕ, pos_part, ltb_ℤ}
use inference_x.Schemas.{
  ChatCompletionRequest, ChatMessage, Fraction, Priority, interactive, batch, ResponseWarning,
  substituted, degraded, ModelEntry,
}
use inference_x.Registry
use inference_x.Registry.{ModelRegistry}
use inference_x.Tiers.{VramTier}
use inference_x.Admission.Counter.{PerModelCounter}

abbrev pub default_context_cap : ℕ
default_context_cap = 4096

abbrev pub min_clamped_output_tokens : ℕ
min_clamped_output_tokens = 16

abbrev pub chars_per_token_fallback : ℕ
chars_per_token_fallback = 4

pub data AdmitError : Type 0 where
  context_too_long : AdmitError
  engine_saturated : ℕ → AdmitError
  strict_mode_violation : AdmitError
  cancelled_error released_too_often : AdmitError

pub record AdmissionResult : Type 0 where
  pub effective_max_tokens : ℕ
  pub reserved_tokens : ℕ
  pub warnings : List ResponseWarning

-- What `admit` reads of an engine.
pub record Engine : Type 0 where
  pub count_prompt_tokens : ChatCompletionRequest → Option ℕ
  pub kv_capacity_tokens : Option ℕ

-- The constructor's arguments.
pub record Config : Type 0 where
  pub registry : ModelRegistry
  pub tier : Option VramTier
  pub kv_safety_margin : Fraction
  pub batch_waiter_multiplier : ℕ

-- The mutable state.
pub record Controller : Type 0 where
  pub tracker : PerModelCounter
  pub semaphores : Dict Semaphore.Semaphore
  pub batch_waiters : PerModelCounter

abbrev pub initial : Controller
initial = record { tracker = Counter.empty; semaphores = []; batch_waiters = Counter.empty }

abbrev pub prompt_tokens_estimated : ResponseWarning
prompt_tokens_estimated = record {
  kind = degraded;
  code = "prompt_tokens_estimated";
  field = some "messages";
}

abbrev pub sequence_gate_skipped : ResponseWarning
sequence_gate_skipped = record { kind = degraded; code = "sequence_gate_skipped"; field = none }

abbrev pub kv_gate_skipped : ResponseWarning
kv_gate_skipped = record { kind = degraded; code = "kv_gate_skipped"; field = none }

abbrev pub max_tokens_clamped_to_context : ResponseWarning
max_tokens_clamped_to_context = record {
  kind = substituted;
  code = "max_tokens_clamped_to_context";
  field = some "max_tokens";
}

abbrev pub max_tokens_clamped_to_kv_budget : ResponseWarning
max_tokens_clamped_to_kv_budget = record {
  kind = substituted;
  code = "max_tokens_clamped_to_kv_budget";
  field = some "max_tokens";
}

-- `_prompt_tokens`: the engine's count, or a quarter of the characters, with its warning.
unfoldable pub prompt_tokens : Engine → ChatCompletionRequest → ℕ × List ResponseWarning
prompt_tokens engine request = elim (engine.count_prompt_tokens request) [
  | some n ↦ (n, [])
  | none ↦ (
    max 1 (total (λ m. count m.content) request.messages / chars_per_token_fallback),
    prompt_tokens_estimated ∷ [],
  )
]

-- The tighter of a ceiling and an optional one.
abbrev pub min_opt : ℕ → Option ℕ → ℕ
min_opt ceiling none = ceiling
min_opt ceiling (some cap) = min ceiling cap

-- `if routed_model in registry: ... registry.get(routed_model).<cap>`
abbrev pub entry_cap : Config → (ModelEntry → Option ℕ) → String → Option ℕ
entry_cap c cap model = elim (Registry.get c.registry model) [ none ↦ none | some e ↦ cap e ]

unfoldable pub context_ceiling : Config → String → ℕ
context_ceiling c model =
    let tier_cap : ℕ = elim c.tier [ none ↦ default_context_cap | some t ↦ t.max_model_len_cap ] in
    min_opt tier_cap (entry_cap c (λ e. e.max_model_len) model)

unfoldable pub effective_max_num_seqs : Config → String → Option ℕ
effective_max_num_seqs c model = elim c.tier [
  | none ↦ none
  | some t ↦ some (min_opt t.max_num_seqs (entry_cap c (λ e. e.max_num_seqs) model))
]

-- `_get_semaphore`: created at first use, at the model's ceiling.
unfoldable pub get_semaphore : Controller → String → ℕ → Semaphore.Semaphore
get_semaphore ctl model n = elim (Dict.get ctl.semaphores model) [
  | none ↦ Semaphore.create n
  | some s ↦ s
]

abbrev pub set_semaphore : Controller → String → Semaphore.Semaphore → Controller
set_semaphore ctl model s = record ctl { semaphores = Dict.put ctl.semaphores model s }
