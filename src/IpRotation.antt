-- ===== src/IpRotation.antt =====
-- src/anti_blocking/ip_rotation.rs: the strategies and their factory.
pub mod Defs
pub mod Pool
pub mod Factory
