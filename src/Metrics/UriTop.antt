-- ===== src/Metrics/UriTop.antt =====
-- `UriTop` of src/metrics.rs: the heavy hitters among the URIs. `none` is the panic of a full table
-- without an entry.
pub mod Sort
pub mod Defs
pub mod Entries
pub mod Invariant
pub mod Record
pub mod Order
pub mod Cover
pub mod MergedUris
pub mod Merge
pub mod History
