-- ===== src/Metrics.antt =====
-- src/inference_x/observability and services/metrics_service.py: what is recorded of each request, and
-- what is reported of the records. A latency is in thousandths of a millisecond (`record` rounds to
-- three decimals); a mean is an exact fraction, before it is rounded for the report.
pub mod Storage
pub mod Summary
pub mod Sse
pub mod Dispatch
