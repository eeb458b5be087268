-- ===== src/App.antt =====
-- Crate bookworm-app: the commands of the command line.
pub mod Command
pub mod Parser
pub mod Columns
