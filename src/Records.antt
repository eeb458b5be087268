-- ===== src/Records.antt =====
-- Crate bookworm-records: the metadata of books.
pub mod Column
pub mod Series
pub mod Variant
pub mod Book
pub mod Compare
