-- ===== src/Manager.antt =====
-- src/daemon/manager.rs: the catalog of providers, the choice of providers for a request, and the
-- dispatch of a search.
pub mod Catalog
pub mod Choice
pub mod Members
pub mod Chosen
pub mod Setting
pub mod Pipeline
pub mod Dispatch
pub mod Reuse
pub mod Priority
pub mod Tiers
pub mod Answers
pub mod New
pub mod Complete
