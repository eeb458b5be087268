-- ===== src/Database.antt =====
-- Crate bookworm-database: the cache of books, their pages and the views of them.
pub mod Query
pub mod Selection
pub mod Search
pub mod View
pub mod Paginator
pub mod Cache
