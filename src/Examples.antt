-- ===== src/Examples.antt =====
-- Concrete rows and surroundings, and the theorems at them.
pub mod Rows
pub mod Steps
pub mod Histories
pub mod Deliveries
pub mod Strings
pub mod Logins
pub mod Torrents
pub mod Queues
pub mod Views
pub mod Disks
pub mod Submissions
