-- ===== src/Tui.antt =====
-- Crate bookworm-tui: the state of scrolled texts.
pub mod Scroll
