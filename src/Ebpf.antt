-- ===== src/Ebpf.antt =====
-- The kernel programs of bandix-plus-ebpf/src/main.rs and the types of
-- bandix-plus-common/src/lib.rs that they share with the service.
pub mod Common
pub mod Context
pub mod Management
pub mod Meta
pub mod Dns
pub mod Counters
pub mod Program
mod Tests
pub mod Ecm
