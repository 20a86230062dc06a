-- ===== src/Codebase.antt =====
-- src/codebase.rs: the vector index and its file.
pub mod Binary
pub mod Storage
