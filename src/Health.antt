-- ===== src/Health.antt =====
-- src/daemon/manager.rs: the health state of a provider.
pub mod Defs
pub mod Invariant
pub mod Window
