-- ===== src/Cli.antt =====
-- The command line, cli: what its commands do once the node stands, and how they reach the daemon.
pub mod Daemon
pub mod Out
pub mod Get
pub mod Add
pub mod Socket
pub mod Info
