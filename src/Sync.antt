-- ===== src/Sync.antt =====
-- internal/sync: the synchronizer.
pub mod Payload
pub mod Load
pub mod Enqueue
pub mod Process
pub mod Frame
pub mod Apply
pub mod Remove
pub mod Restore
pub mod Cleanup
pub mod Pipeline
pub mod Counters
