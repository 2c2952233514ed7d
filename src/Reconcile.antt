-- ===== src/Reconcile.antt =====
-- internal/reconcile: the workflow that advances one leased download row at a time.
pub mod World
pub mod Status
pub mod Failure
pub mod Manifest
pub mod Verify
pub mod Offline
pub mod Copy
pub mod Arrival
pub mod Cleanup
pub mod Licence
pub mod Schedule
pub mod Evidence
pub mod Deadline
pub mod Decide
pub mod Frame
pub mod Step
