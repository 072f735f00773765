-- ===== src/Engine/InitError.antt =====
-- `_map_vllm_init_error`: the kind of the RuntimeError that an exception of vLLM's start is turned
-- into. The texts are left out, but for what decides between them. `str.lower` is an argument, and
-- `in` is a search for a substring.
pub mod Order
use Prim.Native.Char.{code}
use Prim.Native.String.{String}
use text.Mathlib.Text.{starts_with}
use inference_x.Prelude.{
  ℕ, ◌*◌, Bool, true, false, ◌&&◌, ◌||◌, Option, none, some, leb, if◌then◌else◌,
}

pub data InitError : Type 0 where
  gated out_of_memory free_memory kv_cache state_cache not_found position_limit nvcc : InitError
  too_large subprocess other : InitError

-- `needle in s`
unfoldable pub contains : String → String → Bool
contains String.[] needle = starts_with String.[] needle
contains (String.◌∷◌ c s) needle = starts_with (String.◌∷◌ c s) needle || contains s needle

-- Free and total memory, in hundredths of a GiB, as `_probe_cuda_vram` rounds them.
pub record CudaVram : Type 0 where
  pub free_gib : ℕ
  pub total_gib : ℕ

unfoldable pub is_gated_message : String → String → Bool
is_gated_message msg lower =
    contains lower "gated repo"
    || contains lower "gatedrepo"
    || contains lower "not in the authorized list"
    || contains msg "403" && contains lower "forbidden"

unfoldable pub is_free_memory_message : String → Bool
is_free_memory_message lower =
    contains lower "free memory on device"
    || contains lower "gpu memory utilization" && contains lower "less than desired"

unfoldable pub is_kv_cache_message : String → Bool
is_kv_cache_message lower =
    contains lower "cache blocks"
    || contains lower "kv cache"
    || contains lower "no available memory for the cache"

-- The engine core failed: what the GPU and the model's name tell.
unfoldable pub core_error : String → Option CudaVram → InitError
core_error lower_name none = other
core_error lower_name (some vram) =
    if leb vram.total_gib 1000 && contains lower_name "8b" then too_large else subprocess

-- The tests after that for the KV cache.
unfoldable pub late_error : String → String → Option CudaVram → InitError
unfolding core_error
late_error lower lower_name vram =
    if contains lower "mamba cache blocks" || contains lower "max_num_seqs"
    then state_cache
    else if contains lower "not found"
    then not_found
    else if contains lower "greater than the derived max_model_len"
    then position_limit
    else if contains lower "nvcc" || contains lower "cuda_home"
    then nvcc
    else if contains lower "engine core initialization failed"
    then core_error lower_name vram
    else other

unfoldable pub map_vllm_init_error :
    (String → String) → String → Option CudaVram → String → InitError
unfolding is_gated_message is_free_memory_message is_kv_cache_message late_error
map_vllm_init_error lowered model_name vram msg =
    let lower = lowered msg in
    if is_gated_message msg lower
    then gated
    else if contains lower "out of memory" || contains msg "oom"
    then out_of_memory
    else if is_free_memory_message lower
    then free_memory
    else if is_kv_cache_message lower
    then kv_cache
    else late_error lower (lowered model_name) vram
