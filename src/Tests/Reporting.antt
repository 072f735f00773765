-- ===== src/Tests/Reporting.antt =====
-- Metrics: three requests in a buffer of two, and a stream in one chunk and in three.
use inference_x.Prelude.{
  ℕ, ◌≡◌, ◌≤◌, ◌*◌, ◌/◌, ◌+◌, ◌-◌, max, refl, false, Option, none, some, List, [], ◌∷◌, length, leb,
  arith,
}
use inference_x.Prelude.Dict
use inference_x.Metrics.Dispatch.{HttpRequest, HttpResponse, Iteration}
use inference_x.Prelude.{keep, true}
use inference_x.Benchmarks.Advisor.{review, rank}
use inference_x.Benchmarks.Advisor.Ranking.{Ranks, rank-Ranks}
use inference_x.Benchmarks.{HardwareProfile, BenchmarkResult, latest_per_model}
use inference_x.Benchmarks.Latest.{IsLatest, latest_per_model-IsLatest}
use inference_x.Metrics.Storage.{RequestRecord, InMemoryStorage, create, append_all, all}
use inference_x.Metrics.Storage.Laws.{last, append_all-create}
use inference_x.Metrics.Summary.{summary}
use inference_x.Metrics.Summary.Percentile.{with_latency, summary-p95}
use inference_x.Metrics.Sse.{Payload, Chunk, exhausted, wrap_and_record_sse}
use inference_x.Metrics.Sse.Chunking.{untimed, wrap_and_record_sse-chunking}

abbrev took : ℕ → RequestRecord
took ms = record {
  path = "/v1/models";
  method = "GET";
  status_code = 200;
  latency = ms;
  model = none;
  prompt_tokens = none;
  completion_tokens = none;
  total_tokens = none;
  error = false;
  ttft = none;
  tokens_per_sec = none;
}

abbrev seen : List RequestRecord
seen = took 5000 ∷ took 7000 ∷ took 6000 ∷ []

append_all-create_example : all (append_all (create 2) seen) ≡ last 2 seen
append_all-create_example = append_all-create 2 seen

abbrev kept : InMemoryStorage
kept = record { max_records = 10; buf = seen }

three : 1 ≤ length (all kept)
unfolding all
three = omega arith

summary-p95_example :
    (v : ℕ) × ((summary kept).p95_latency ≡ some v)
    × (max 1 (length (all kept) * 95 / 100) ≤ with_latency (λ l. leb l v) (all kept))
    × (length (all kept) ≤ (length (all kept) * 95 / 100 - 1) + with_latency (leb v) (all kept))
summary-p95_example = summary-p95 kept three

-- Every event reads as a usage event of 100 and 2 tokens.
abbrev reads_usage : List ℕ → Option Payload
reads_usage line = some (record { choices = []; usage = some (some 100, some 2) })

abbrev piece : List ℕ → ℕ → Chunk
piece b t = record { raw = b; at = t }

-- An event, cut within the blank line that ends it.
abbrev in_pieces : List Chunk
in_pieces = piece (100 ∷ 10 ∷ []) 1 ∷ piece (10 ∷ []) 2 ∷ piece [] 3 ∷ []

abbrev whole : List Chunk
whole = piece (100 ∷ 10 ∷ 10 ∷ []) 9 ∷ []

wrap_and_record_sse-chunking_example :
    untimed ((wrap_and_record_sse reads_usage in_pieces exhausted 50).1)
    ≡ untimed ((wrap_and_record_sse reads_usage whole exhausted 50).1)
wrap_and_record_sse-chunking_example =
    wrap_and_record_sse-chunking reads_usage in_pieces whole exhausted 50 refl

abbrev chat : HttpRequest
chat = record {
  method = "POST";
  path = "/v1/chat/completions";
  payload = some (some "small", false);
}

abbrev answered : HttpResponse
answered = record {
  status_code = 200;
  is_event_stream = false;
  usage = some (some 100, some 2, some 102);
}

abbrev no_stream : Iteration
no_stream = record { chunks = []; ending = exhausted; elapsed = 0 }

abbrev measured : BenchmarkResult
measured = record {
  model_name = "small";
  timestamp = 2;
  suite_version = "s";
  prompt_ttfts = 900 ∷ 200 ∷ 220 ∷ [];
  mean_throughput_tps = 30000;
  vram_device_occupied_gib = 4200;
  hardware = none;
  max_model_len = some 2048;
}

abbrev saved : List BenchmarkResult
saved =
    measured
    ∷ record measured { timestamp = 5; suite_version = "s" }
    ∷ record measured { model_name = "large"; timestamp = 9; suite_version = "t" }
    ∷ []

latest_per_model-IsLatest_example :
    IsLatest "small" saved (Dict.get (latest_per_model saved) "small")
latest_per_model-IsLatest_example = latest_per_model-IsLatest saved "small"

abbrev gpu : HardwareProfile
gpu = record { gpu_name = some "gpu"; vram_total_gb = 8000; has_gpu = true }

rank-Ranks_example :
    Ranks gpu
      (keep (λ r. (review (λ s. s) gpu none r).1) saved)
      (rank (λ s. s) gpu saved none).ranked
rank-Ranks_example = rank-Ranks (λ s. s) gpu saved none
