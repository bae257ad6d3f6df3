-- ===== src/Cache.antt =====
-- src/cache/mod.rs and src/cache/sqlite.rs: the cache of search responses.
pub mod Keys
pub mod Defs
pub mod Order
pub mod Select
pub mod Store
pub mod Clear
pub mod Reachable
