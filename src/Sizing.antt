-- ===== src/Sizing.antt =====
-- src/inference_x/utils/vllm_pool_config.py, the estimate of a model's weights. Bytes are in
-- hundredths, since a quantized parameter takes 0.55 bytes. Python's string methods, the regular
-- expression for a size in a name and HuggingFace's AutoConfig are parameters.
pub mod Bounds
pub mod Knobs
pub mod Share
pub mod Utilization
use inference_x.Prelude.{
  ℕ, ◌+◌, ◌-◌, ◌*◌, ◌/◌, ◌^◌, min, String, Bool, true, false, ◌||◌, Option, none, some, List, [],
  ◌∷◌, any, leb, ltb, ◌==◌, str_eq, if◌then◌else◌,
}
use inference_x.Schemas.{Fraction}

-- The keys of a HuggingFace config that the code reads.
pub record HfConfig : Type 0 where
  pub hidden_size : Option ℕ
  pub n_embd : Option ℕ
  pub num_hidden_layers : Option ℕ
  pub n_layer : Option ℕ
  pub num_layers : Option ℕ
  pub vocab_size : Option ℕ
  pub intermediate_size : Option ℕ
  pub num_parameters : Option ℕ
  pub n_params : Option ℕ
  pub tie_word_embeddings : Option Bool

pub data SizeUnit : Type 0 where
  millions billions : SizeUnit

-- `strip().lower()`, `lower()`, `needle in key`, `startswith` one of `/`, `./`, `../`; `re.search` for
-- a number with the unit m or b; and `AutoConfig.from_pretrained(...).to_dict()`, none where it raises.
pub record Outside : Type 0 where
  pub normalized : String → String
  pub lowered : String → String
  pub occurs_in : String → String → Bool
  pub is_local : String → Bool
  pub size_in : String → Option (Fraction × SizeUnit)
  pub auto_config : String → Option HfConfig

-- `a or b`, for numbers.
abbrev pub or_num : Option ℕ → ℕ → ℕ
or_num none d = d
or_num (some n) d = if n == 0 then d else n

-- `_BYTES_PER_PARAM`
abbrev pub full_bytes : ℕ
full_bytes = 200

-- `_QUANT_BYTES_PER_PARAM`
abbrev pub quant_bytes : List (String × ℕ)
quant_bytes =
    ("awq", 55)
    ∷ ("awq_marlin", 55)
    ∷ ("gptq", 55)
    ∷ ("gptq_marlin", 55)
    ∷ ("int4", 55)
    ∷ ("bitsandbytes", 55)
    ∷ ("int8", 100)
    ∷ ("fp8", 100)
    ∷ ("fp8_e4m3", 100)
    ∷ ("fp8_e5m2", 100)
    ∷ []

-- The value of the first key that passes a test.
abbrev pub first_value : (String → Bool) → List (String × ℕ) → Option ℕ
first_value p [] = none
first_value p ((k, v) ∷ rest) = let later = first_value p rest in if p k then some v else later

abbrev pub or_else : Option ℕ → ℕ → ℕ
or_else none d = d
or_else (some b) d = b

module _ (o : Outside) where
  unfoldable pub bytes_per_param : Option String → ℕ
  bytes_per_param none = full_bytes
  bytes_per_param (some q) =
      let key = o.normalized q in
      if str_eq q ""
      then full_bytes
      else or_else (first_value (λ k. str_eq k key) quant_bytes)
          (or_else (first_value (λ k. o.occurs_in k key) quant_bytes) full_bytes)

  unfoldable pub hf_config_dict : String → Option HfConfig
  hf_config_dict path = if str_eq path "" || o.is_local path then none else o.auto_config path

  unfoldable pub params_from_name_or_path : String → Option ℕ
  params_from_name_or_path path = elim (o.size_in path) [
    | none ↦ none
    | some (value, millions) ↦ some (value.num * 1000000 / value.den)
    | some (value, billions) ↦ some (value.num * 1000000000 / value.den)
  ]

unfoldable pub parameter_count_from_arch : HfConfig → ℕ
parameter_count_from_arch c =
    let hidden = or_num c.hidden_size (or_num c.n_embd 4096) in
    let layers = or_num c.num_hidden_layers (or_num c.n_layer (or_num c.num_layers 32)) in
    let vocab = or_num c.vocab_size 32000 in
    let intermediate = or_num c.intermediate_size (hidden * 4) in
    layers * (12 * hidden * hidden + 13 * hidden * intermediate) + vocab * hidden

abbrev pub multiplier : Option Bool → ℕ
multiplier (some false) = 2
multiplier _ = 1

unfoldable pub embedding_param_count : Option HfConfig → ℕ → ℕ
embedding_param_count none total_params = 0
embedding_param_count (some c) total_params =
    let hidden = or_num c.hidden_size (or_num c.n_embd 0) in
    let vocab = or_num c.vocab_size 0 in
    if hidden == 0 || vocab == 0
    then 0
    else min (vocab * hidden * multiplier c.tie_word_embeddings) total_params

-- The number of parameters: from the name, else from the config when there is one; 0 is unknown.
unfoldable pub params_of : Option ℕ → Option HfConfig → ℕ
unfolding parameter_count_from_arch
params_of (some n) config = n
params_of none none = 0
params_of none (some c) = or_num c.num_parameters (or_num c.n_params (parameter_count_from_arch c))

-- `embed` of the parameters are kept at full precision.
unfoldable pub priced : ℕ → ℕ → ℕ → ℕ
priced params embed per_param =
    if params == 0
    then 150 * 1024 ^ 3
    else if leb full_bytes per_param
    then params * per_param
    else (params - embed) * per_param + embed * full_bytes

-- Hundredths of a byte.
unfoldable pub estimate_weight : Outside → String → Option String → ℕ
unfolding params_from_name_or_path params_of priced
estimate_weight o path quantization =
    let config = hf_config_dict o path in
    let params = params_of (params_from_name_or_path o path) config in
    priced params (embedding_param_count config params) (bytes_per_param o quantization)
