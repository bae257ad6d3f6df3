-- ===== src/Url.antt =====
-- src/search/merge.rs: `ResultMerger::canonicalize_url`.
pub mod Defs
pub mod Split
pub mod Canonical
