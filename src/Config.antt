-- ===== src/Config.antt =====
-- src/config.rs: the configuration, its defaults, and how it is loaded.
pub mod Defs
pub mod Agents
pub mod Defaults
pub mod Toml
pub mod Load
pub mod Overrides
