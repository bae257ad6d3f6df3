-- ===== src/Fetch.antt =====
-- src/daemon/server.rs: the `fetch` request.
pub mod Defs
pub mod Body
pub mod Requests
