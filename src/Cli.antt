-- ===== src/Cli.antt =====
-- src/cli.rs: the command line, behind the parsing of its arguments and before the printing.
pub mod Client
pub mod Commands
pub mod Stop
