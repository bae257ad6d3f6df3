-- ===== src/Rank.antt =====
-- src/search/rank.rs: composite scores and the ranking of results.
pub mod Defs
pub mod Scores
pub mod Ranking
