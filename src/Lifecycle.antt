-- ===== src/Lifecycle.antt =====
-- src/daemon/mod.rs: the files of the daemon, from its start to its end.
pub mod Files
pub mod Daemon
pub mod Pid
pub mod Steps
pub mod Exclusive
pub mod Running
