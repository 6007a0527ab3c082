-- ===== src/Codec.antt =====
-- src/codec/dns.rs: the DNS wire format. A packet is the list of its bytes.
pub mod Answers
pub mod Tests
pub mod Bytes
pub mod Text
pub mod Header
pub mod Name
pub mod Section
pub mod Question
pub mod Edns
pub mod Ttl
pub mod Build
