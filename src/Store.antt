-- ===== src/Store.antt =====
-- internal/store: the repository behind the reconciler.
pub mod Commit
pub mod Rows
pub mod History
pub mod Create
pub mod Edits
