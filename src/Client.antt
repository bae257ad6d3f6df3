-- ===== src/Client.antt =====
-- src/anti_blocking: the HTTP client of a provider that is rebuilt every few requests, its TLS
-- configuration and its User-Agent.
pub mod Rotating
pub mod Rotations
pub mod Tls
pub mod Suites
pub mod Agents
