-- ===== src/Connection/Manager.antt =====
-- `ConnectionManager` and its `ConnectionRemovalRegistry`.
pub mod State
pub mod Users
pub mod Lifecycle
pub mod Ops
pub mod Index
pub mod Reindex
pub mod Valid
pub mod Updates
pub mod Adding
pub mod Removing
pub mod Named
pub mod Listing
pub mod Reached
pub mod Snapshots
pub mod Sending
pub mod Scans
pub mod Batch
pub mod Found
pub mod Gate
