-- ===== src/Mcp.antt =====
-- src/mcp.rs: the MCP server, which passes the calls of its tools on to the daemon.
pub mod Client
pub mod Tools
pub mod Requests
pub mod Line
pub mod Through
