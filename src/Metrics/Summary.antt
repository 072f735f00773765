-- ===== src/Metrics/Summary.antt =====
-- services/metrics_service.py: the summary of the records held. The values are exact: a mean is the
-- sum and the number of values, before the report rounds it. `int(len * 0.95)` is the exact floor for
-- a buffer's lengths: the double nearest to 0.95 is so close to it that the product rounds right.
pub mod Percentile
use inference_x.Prelude.{
  ℕ, suc, ◌+◌, ◌-◌, ◌*◌, ◌/◌, Bool, true, false, Option, none, some, List, [], ◌∷◌, map, length,
  total, keep, leb, get_elem?, if◌then◌else◌,
}
use inference_x.Prelude.Sort.{sorted_by}
use inference_x.Schemas.{Fraction}
use inference_x.Metrics.Storage.{RequestRecord, InMemoryStorage, all}

pub record MetricsSummary : Type 0 where
  pub total_requests : ℕ
  pub error_count : ℕ
  pub avg_latency : Option Fraction
  pub p95_latency : Option ℕ
  pub avg_ttft : Option Fraction
  pub avg_tokens_per_sec : Option Fraction

-- `[f(r) for r in records if f(r) is not None]`
unfoldable pub present : (RequestRecord → Option ℕ) → List RequestRecord → List ℕ
present f [] = []
present f (r ∷ rs) = let rest = present f rs in elim (f r) [ none ↦ rest | some v ↦ v ∷ rest ]

-- `sum(xs) / len(xs) if xs else None`
unfoldable pub mean : List ℕ → Option Fraction
mean [] = none
mean (x ∷ xs) = some (record { num = total (λ v. v) (x ∷ xs); den = length (x ∷ xs) })

-- `max(0, int(n * 0.95) - 1)`
unfoldable pub p95_idx : ℕ → ℕ
p95_idx n = n * 95 / 100 - 1

unfoldable pub summary_of : List RequestRecord → MetricsSummary
unfolding present mean p95_idx
summary_of [] = record {
  total_requests = 0;
  error_count = 0;
  avg_latency = none;
  p95_latency = none;
  avg_ttft = none;
  avg_tokens_per_sec = none;
}
summary_of (r ∷ rs) =
    let records = r ∷ rs in
    let latencies = sorted_by leb (map (λ q. q.latency) records) in
    record {
      total_requests = length records;
      error_count = length (keep (λ q. q.error) records);
      avg_latency = mean latencies;
      p95_latency = get_elem? latencies (p95_idx (length latencies));
      avg_ttft = mean (present (λ q. q.ttft) records);
      avg_tokens_per_sec = mean (present (λ q. q.tokens_per_sec) records);
    }

unfoldable pub summary : InMemoryStorage → MetricsSummary
unfolding summary_of all
summary s = summary_of (all s)
