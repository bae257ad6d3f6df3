-- ===== src/RateLimiter.antt =====
-- src/anti_blocking/rate_limiter.rs: the sliding window limiter. An `Instant` is a number of
-- nanoseconds; `duration_since` is 0 for a later instant, as truncated subtraction is.
pub mod Defs
pub mod Counting
pub mod Bound
pub mod Waiting
