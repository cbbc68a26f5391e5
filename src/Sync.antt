-- ===== src/Sync.antt =====
-- The synchronization framework: crates/metashrew-sync/src.
pub mod Error
pub mod Retry
pub mod Adapters
pub mod Reorg
pub mod Heal
pub mod Validate
pub mod Apply
pub mod Fetch
pub mod Pipeline
pub mod Snapshot
