-- ===== src/Spa.antt =====
-- src/daemon/server.rs: the heuristics that detect pages rendered by JavaScript.
pub mod Defs
pub mod Strip
pub mod Detect
