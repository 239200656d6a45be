-- ===== src/Dns.antt =====
-- The DNS monitor of bandix-plus/src/dns.rs.
pub mod Name
mod Tests
pub mod Packet
pub mod Message
pub mod Key
pub mod Store
pub mod Search
