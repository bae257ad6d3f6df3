-- ===== src/Retry.antt =====
-- src/anti_blocking/retry.rs: which errors are retried, and the loop with backoff.
pub mod Defs
pub mod Attempts
pub mod Delays
pub mod Success
