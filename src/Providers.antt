-- ===== src/Providers.antt =====
-- src/search/providers: the four search providers.
pub mod Http
pub mod Clients
pub mod Brave
pub mod DuckDuckGo
pub mod Jina
pub mod Searxng
pub mod Backend
pub mod Escaped
pub mod Parsed
pub mod Honest
