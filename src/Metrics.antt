-- ===== src/Metrics.antt =====
-- src/metrics.rs: what a run counts.
pub mod UriTop
pub mod Counts
