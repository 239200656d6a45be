-- ===== src/Conntrack.antt =====
-- The connection monitor of bandix-plus/src/conntrack.rs.
pub mod Netlink
pub mod Flows
pub mod Decode
pub mod Statistics
mod Tests
