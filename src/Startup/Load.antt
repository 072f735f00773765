-- ===== src/Startup/Load.antt =====
-- The part of `_build_engine_pool` that loads the engine: the tier's limits, the check that the model
-- fits and the constructor of `VLLMEngine`, and what holds of an engine that was loaded.
use inference_x.Prelude.{
  ℕ, ◌≤◌, ◌*◌, String, Option, none, some, ◌≡◌, refl, sym, ap, ◌∙◌, arith, if◌then◌else◌,
}
use inference_x.Prelude.Dict
use inference_x.Schemas.{Fraction, ModelEntry}
use inference_x.Registry
use inference_x.Registry.{ModelRegistry}
use inference_x.Tiers
use inference_x.Tiers.{VramTier}
use inference_x.Sizing.Knobs.{EngineConfig, tighter, apply_tier_knobs}
use inference_x.Sizing.Utilization.{hundredth_gib, validate_model_fits}
use inference_x.Sizing.Utilization.Bounds.{Sensible}
use inference_x.Engine.Load.Start.{
  EngineSettings, EngineKwargs, VllmEngine, Started, engine_ready, engine_refused, Machine,
  as_sized, init,
}
use inference_x.Engine.Load.Start.Ready.{Launched, init-ready}
use inference_x.Admission.{effective_max_num_seqs, min_opt}
use inference_x.Startup.{build_admission_controller}

-- `registry.get(model_name).model_dump()`
unfoldable pub model_dump : ModelEntry → EngineSettings
model_dump m = record {
  name = some m.name;
  model_path = some m.model_path;
  quantization = m.quantization;
  gpu_memory_utilization = m.gpu_memory_utilization;
  max_model_len = m.max_model_len;
  max_num_seqs = m.max_num_seqs;
  max_num_batched_tokens = m.max_num_batched_tokens;
  block_size = none;
  kv_cache_dtype = none;
  enable_prefix_caching = none;
  max_completion_tokens = m.max_completion_tokens;
  instruction_tuned = some m.instruction_tuned;
  repetition_penalty = m.repetition_penalty;
}

abbrev knobs_of : EngineSettings → EngineConfig
knobs_of s = record {
  max_num_seqs = s.max_num_seqs;
  max_num_batched_tokens = s.max_num_batched_tokens;
  block_size = s.block_size;
  kv_cache_dtype = s.kv_cache_dtype;
  enable_prefix_caching = s.enable_prefix_caching;
}

-- `apply_tier_knobs` on the whole config.
unfoldable pub with_knobs : EngineSettings → Option VramTier → EngineSettings
with_knobs s tier =
    let k = apply_tier_knobs (knobs_of s) tier in
    record s {
      max_num_seqs = k.max_num_seqs;
      max_num_batched_tokens = k.max_num_batched_tokens;
      block_size = k.block_size;
      kv_cache_dtype = k.kv_cache_dtype;
      enable_prefix_caching = k.enable_prefix_caching;
    }

abbrev pub engine_of : Started → Option VllmEngine
engine_of (engine_ready e) = some e
engine_of (engine_refused _) = none

-- An amount of memory in hundredths of a GiB, as the sizing takes it.
abbrev gib : ℕ → ℕ
gib n = n * hundredth_gib

abbrev in_bytes : Option ℕ → Option ℕ
in_bytes none = none
in_bytes (some n) = some (gib n)

-- The fit check raises, or the engine is constructed.
unfoldable pub start_if_fits : Machine → EngineSettings → Option ℕ → Option ℕ → Option VllmEngine
start_if_fits machine s free total =
    if validate_model_fits machine.outside (as_sized s)
      (elim total [ none ↦ gib 800 | some n ↦ gib n ]) (in_bytes free)
    then engine_of (init machine s (in_bytes free) (in_bytes total))
    else none

unfoldable pub load_engine :
    Machine → ModelRegistry → Option VramTier → Option ℕ → Option ℕ → String → Option VllmEngine
load_engine machine registry tier free total name = elim (Registry.get registry name) [
  | none ↦ none
  | some m ↦ start_if_fits machine (with_knobs (model_dump m) tier) free total
]

tighter-min_opt : (own : Option ℕ) (n : ℕ) → tighter own n ≡ min_opt n own
tighter-min_opt none n = omega arith
tighter-min_opt (some m) n = omega arith

engine_of-ready : (x : Started) (e : VllmEngine) → engine_of x ≡ some e → x ≡ engine_ready e
engine_of-ready (engine_ready d) e h = ap engine_ready (ground (arith, h))
engine_of-ready (engine_refused r) e h = absurd (ground (arith, h))

start_if_fits-ready :
    (machine : Machine) (s : EngineSettings) (free total : Option ℕ) (e : VllmEngine)
    → start_if_fits machine s free total ≡ some e
    → init machine s (in_bytes free) (in_bytes total) ≡ engine_ready e
unfolding start_if_fits
start_if_fits-ready machine s free total e h =
    engine_of-ready (init machine s (in_bytes free) (in_bytes total)) e (ground (arith, h))

load_engine-registered :
    (machine : Machine) (registry : ModelRegistry) (tier : Option VramTier) (free total : Option ℕ)
    (name : String) (m : ModelEntry)
    → Registry.get registry name ≡ some m
    → load_engine machine registry tier free total name
      ≡ start_if_fits machine (with_knobs (model_dump m) tier) free total
unfolding load_engine
load_engine-registered machine registry tier free total name m got = rw (load_engine, got) refl

abbrev pub FromAdmission : Machine → VllmEngine → Option ℕ → Type 0
FromAdmission machine e limit =
    (kwargs : EngineKwargs) × (u : Fraction) × (kwargs.gpu_memory_utilization ≡ some u)
    × (u.num ≤ 9200)
    × (kwargs.max_num_seqs ≡ limit)
    × Launched machine e kwargs

registered-seqs :
    (registry : ModelRegistry) (t : VramTier) (multiplier : ℕ) (name : String) (m : ModelEntry)
    → Registry.get registry name ≡ some m
    → (with_knobs (model_dump m) (some t)).max_num_seqs
      ≡ effective_max_num_seqs (build_admission_controller registry (Tiers.ok t) multiplier) name
unfolding with_knobs model_dump apply_tier_knobs effective_max_num_seqs build_admission_controller
    Registry.get Dict.get
registered-seqs registry t multiplier name m h =
    rw h (ap some (tighter-min_opt m.max_num_seqs t.max_num_seqs))

-- An engine that is loaded on a resolved tier, for a model whose utilization (if any) is a positive
-- number, has vLLM started with the limit of sequences that the admission controller of the same
-- registry and tier holds the model's requests to, and with a share of the GPU of at most 0.92; the
-- model passed the check of access, the share the check of the free memory, and the engine is healthy.
pub load_engine-effective_max_num_seqs :
    (machine : Machine) (registry : ModelRegistry) (t : VramTier) (multiplier : ℕ)
    (free total : Option ℕ) (name : String) (m : ModelEntry) (e : VllmEngine)
    → Registry.get registry name ≡ some m
    → Sensible (as_sized (model_dump m))
    → load_engine machine registry (some t) free total name ≡ some e
    → FromAdmission machine e
        (effective_max_num_seqs (build_admission_controller registry (Tiers.ok t) multiplier) name)
unfolding with_knobs
load_engine-effective_max_num_seqs machine registry t multiplier free total name m e got sensible
      h =
    let s = with_knobs (model_dump m) (some t) in
    let ready = init-ready machine s (in_bytes free) (in_bytes total) e sensible (
      start_if_fits-ready machine s free total e
        (sym (load_engine-registered machine registry (some t) free total name m got) ∙ h)) in
    (
      ready.0,
      ready.1,
      ready.2,
      ready.3,
      ready.4 ∙ registered-seqs registry t multiplier name m got,
      ready.6,
    )
