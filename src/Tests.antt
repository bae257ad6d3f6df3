-- ===== src/Tests.antt =====
-- The theorems at concrete inputs.
mod Network
mod Rotation
mod Limits
mod Results
mod Storage
mod Dispatch
mod Connections
mod Clients
mod Configured
mod Lifetime
