-- ===== src/Fsafe.antt =====
-- internal/fsafe: the checks of torrent content on the local disk, and its removal.
pub mod Disk
pub mod Confine
pub mod Roots
pub mod Candidate
pub mod Verify
pub mod Interface
pub mod Completion
pub mod Components
pub mod Delete
pub mod Listing
