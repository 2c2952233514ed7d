-- ===== src/Domain.antt =====
-- internal/domain: the durable concepts of a download, with no dependency on storage or transport.
pub mod State
pub mod Problem
pub mod Model
pub mod Validate
pub mod Project
pub mod Redact
pub mod Retry
