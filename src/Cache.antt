-- ===== src/Cache.antt =====
-- src/cache.rs: the response cache. A shard is the list of its entries in the order in which the
-- hash map would iterate over them, so what holds of every list holds of every such order.
pub mod Freeze
pub mod Below
pub mod Clear
pub mod Tests
pub mod Keeps
pub mod Capacity
pub mod Invariant
pub mod Bounds
pub mod Reads
pub mod Insert
pub mod Evict
pub mod Map
pub mod Hex
pub mod Shard
pub mod Domain
pub mod State
