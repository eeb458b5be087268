-- ===== src/Input.antt =====
-- Crate bookworm-input: editable text with a cursor and a selection, the recorder that replays
-- edits, the command line and its words, and the completion ring.
pub mod Cursor
pub mod Recorder
pub mod Autocomplete
pub mod Words
pub mod Command
pub mod Edit
