-- ===== src/Policy.antt =====
-- The request policy of src/policy.rs: access control by CIDR, block lists, views and rate limits.
pub mod Tests
pub mod Access
pub mod Engine
pub mod Rate
pub mod Trie
pub mod Names
