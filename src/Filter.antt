-- ===== src/Filter.antt =====
-- The replay whitelist, src/replay_filter.rs.
pub mod Glob
pub mod Whitelist
pub mod Selection
pub mod Validation
