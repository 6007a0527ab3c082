-- ===== src/Resolver.antt =====
-- The resolver of src/resolver: its pure functions, its caches and the order in which it asks.
pub mod Inflight
pub mod Windows
pub mod DnssecCache
pub mod Serving
pub mod EventLog
pub mod NsHosts
pub mod Expiring
pub mod Delegation
pub mod Upstreams
pub mod Zones
pub mod Names
pub mod Client
pub mod Tests
pub mod ClientTests
pub mod Popularity
