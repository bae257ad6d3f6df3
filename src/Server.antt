-- ===== src/Server.antt =====
-- src/daemon/server.rs and src/daemon/protocol.rs: the requests of a connection and their responses.
pub mod Request
pub mod Response
pub mod Lines
pub mod Trim
pub mod Connection
pub mod Dispatch
pub mod Utf8
pub mod Position
pub mod Rounds
pub mod Reading
pub mod Frames
pub mod Daemon
pub mod Transcript
pub mod Conversation
