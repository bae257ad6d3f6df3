-- ===== src/Merge.antt =====
-- src/search/merge.rs: merging the responses of several providers.
pub mod Defs
pub mod Best
pub mod Keys
pub mod Merged
