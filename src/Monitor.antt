-- ===== src/Monitor.antt =====
-- The traffic monitor of bandix-plus/src/monitor.rs.
pub mod Types
pub mod Bucket
pub mod Histogram
pub mod Daily
pub mod Samples
mod Tests
