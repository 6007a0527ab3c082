-- ===== src/TopN.antt =====
-- The statistics of src/topn.rs: counters per domain and per client, in buckets of a minute.
pub mod Merge
pub mod Tests
pub mod Counts
pub mod Top
pub mod State
