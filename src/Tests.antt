-- ===== src/Tests.antt =====
-- The theorems at concrete inputs, and tests of the definitions.
pub mod Input
pub mod App
pub mod Commands
pub mod Tui
pub mod Records
pub mod Database
pub mod Shelf
pub mod Paginator
pub mod View
