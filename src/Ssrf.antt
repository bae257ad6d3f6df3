-- ===== src/Ssrf.antt =====
-- src/daemon/server.rs: the protection of `fetch` against requests to internal addresses.
pub mod Defs
pub mod Ranges
pub mod Validate
