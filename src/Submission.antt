-- ===== src/Submission.antt =====
-- internal/submission/service.go: the pipeline that every submission of a magnet or a torrent takes.
pub mod Options
pub mod Retained
pub mod Service
pub mod Choices
pub mod Submit
pub mod Revival
