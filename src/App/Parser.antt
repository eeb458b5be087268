-- ===== src/App/Parser.antt =====
-- bookworm-app/src/parser.rs: the arguments of a command line are split into groups by flags, and
-- each command reads its groups. The children hold the readers and what they keep.
pub mod Args
pub mod Matches
pub mod Sources
pub mod Edits
pub mod Commands
