-- ===== src/Persistence.antt =====
-- The ring files of bandix-plus/src/persistence.rs.
pub mod Codec
pub mod Header
pub mod Ring
mod Tests
