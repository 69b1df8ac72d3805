-- ===== src/Metrics.antt =====
-- The read-model of apps/api/src/metrics/metrics.controller.ts: `Buckets` is how a query is cut into
-- buckets, `Series` the two handlers that answer with series.
pub mod Buckets
pub mod Series
mod Tests
