-- ===== src/Engine/Load.antt =====
-- `VLLMEngine.__init__` and what it calls before vLLM: the HuggingFace token, the preflight of access
-- to the repository, the check of the VRAM budget and vLLM's keyword arguments. The environment, the
-- HuggingFace client, the probe of the GPU and vLLM's start are arguments.
pub mod Access
pub mod Start
use Prim.Native.Char.{code}
use Prim.Native.String.{String, ◌++◌ as text_append}
use text.Mathlib.Text.{starts_with}
use inference_x.Prelude.{
  ℕ, ◌*◌, Bool, true, false, not, ◌&&◌, ◌||◌, Option, none, some, List, [], ◌∷◌, ltb, ◌==◌, str_eq,
  if◌then◌else◌,
}
use inference_x.Prelude.Round.{nearest}
use inference_x.Schemas.{Fraction}
use inference_x.Engine.InitError.{CudaVram}
use inference_x.Sizing.Utilization.{hundredth_gib}

-- The first of the variables that is not blank; `env` is `os.environ.get(key, "").strip()`.
abbrev first_set : (String → String) → List String → Option String
first_set env [] = none
first_set env (key ∷ keys) = if str_eq (env key) "" then first_set env keys else some (env key)

unfoldable pub resolve_hf_token : (String → String) → Option String
resolve_hf_token env =
    first_set env ("HF_TOKEN" ∷ "HUGGING_FACE_HUB_TOKEN" ∷ "HUGGINGFACE_HUB_TOKEN" ∷ [])

-- A character at the front of the first part.
abbrev onto_first : String → List String → List String
onto_first s [] = s ∷ []
onto_first s (part ∷ parts) = text_append s part ∷ parts

-- `path.split("/")`
unfoldable pub split_slash : String → List String
split_slash String.[] = "" ∷ []
split_slash (String.◌∷◌ c s) =
    let parts = split_slash s in
    if code c == 47 then "" ∷ parts else onto_first (String.◌∷◌ c String.[]) parts

-- `len(path) >= 2 and path[1] == ":"`
unfoldable pub has_drive : String → Bool
has_drive (String.◌∷◌ c (String.◌∷◌ d s)) = code d == 58
has_drive _ = false

-- Two parts, neither empty.
unfoldable pub is_org_and_name : List String → Bool
is_org_and_name (org ∷ name ∷ []) = not (str_eq org "") && not (str_eq name "")
is_org_and_name _ = false

-- `is_absolute` is `os.path.isabs`.
unfoldable pub is_hf_hub_model_path : (String → Bool) → String → Bool
unfolding split_slash has_drive is_org_and_name
is_hf_hub_model_path is_absolute path =
    if str_eq path ""
    then false
    else if starts_with path "/"
        || starts_with path "./"
        || starts_with path "../"
        || starts_with path "~"
    then false
    else if is_absolute path
    then false
    else if has_drive path
    then false
    else is_org_and_name (split_slash path)

-- `_probe_cuda_vram`: what `probe_gpu_memory_gib` gives, rounded to hundredths of a GiB.
unfoldable pub probe_cuda_vram : Option (ℕ × ℕ) → Option CudaVram
unfolding nearest
probe_cuda_vram none = none
probe_cuda_vram (some (free, total)) =
    some (record { free_gib = nearest free hundredth_gib; total_gib = nearest total hundredth_gib })

-- `_check_vram_budget`: false if it raises.
unfoldable pub check_vram_budget : Option Fraction → Option CudaVram → Bool
check_vram_budget none vram = true
check_vram_budget (some gpu_util) none = true
check_vram_budget (some gpu_util) (some vram) =
    not (ltb (vram.free_gib * gpu_util.den) (gpu_util.num * vram.total_gib))
