-- ===== src/Benchmarks.antt =====
-- src/inference_x/benchmarks/storage.py: which saved benchmark results count. Reading the directory is
-- left out: its results, in the order of their file names, are an argument. A timestamp is a number, in
-- the order of the strings that the code compares.
pub mod Latest
pub mod Advisor
use inference_x.Prelude.{
  ℕ, String, Bool, true, false, Option, none, some, List, [], ◌∷◌, foldl, keep, ltb, str_eq,
  if◌then◌else◌,
}
use inference_x.Prelude.Dict
use inference_x.Prelude.Dict.{Dict}

-- Amounts of memory are in thousandths of a GiB.
pub record HardwareProfile : Type 0 where
  pub gpu_name : Option String
  pub vram_total_gb : ℕ
  pub has_gpu : Bool

-- The fields of a result that the selection and the advisor read. Times are in thousandths of a
-- millisecond, and the throughput in thousandths of a token a second.
pub record BenchmarkResult : Type 0 where
  pub model_name : String
  pub timestamp : ℕ
  pub suite_version : String
  pub prompt_ttfts : List ℕ
  pub mean_throughput_tps : ℕ
  pub vram_device_occupied_gib : ℕ
  pub hardware : Option HardwareProfile
  pub max_model_len : Option ℕ

pub data Status : Type 0 where
  empty suite_mismatch ok : Status

pub record SuiteSelection : Type 0 where
  pub status : Status
  pub latest : Dict BenchmarkResult

-- `existing is None or result.timestamp > existing.timestamp`
abbrev pub replaces : BenchmarkResult → Option BenchmarkResult → Bool
replaces r none = true
replaces r (some existing) = ltb (existing.timestamp) (r.timestamp)

abbrev pub update : Dict BenchmarkResult → BenchmarkResult → Dict BenchmarkResult
update latest r =
    if replaces r (Dict.get latest (r.model_name)) then Dict.put latest (r.model_name) r else latest

unfoldable pub latest_per_model : List BenchmarkResult → Dict BenchmarkResult
latest_per_model results = foldl update [] results

abbrev pub of_suite : String → BenchmarkResult → Bool
of_suite expected r = str_eq (r.suite_version) expected

abbrev pub nothing : Status → SuiteSelection
nothing s = record { status = s; latest = [] }

unfoldable pub select_matching : List BenchmarkResult → SuiteSelection
unfolding latest_per_model
select_matching [] = nothing suite_mismatch
select_matching (r ∷ rs) = record { status = ok; latest = latest_per_model (r ∷ rs) }

unfoldable pub latest_per_model_for_suite : String → List BenchmarkResult → SuiteSelection
unfolding select_matching
latest_per_model_for_suite expected [] = nothing empty
latest_per_model_for_suite expected (r ∷ rs) = select_matching (keep (of_suite expected) (r ∷ rs))
