-- ===== src/Storage.antt =====
-- src/storage/memoryBackend.ts, the storage contract of src/storage/base.ts over maps.
pub mod State
pub mod Messages
pub mod Asks
pub mod Projects
pub mod Inbox
pub mod Leases
pub mod Upkeep
pub mod Machine
pub mod Transitions
pub mod Rows
pub mod Keys
pub mod Cursor
pub mod Loops
pub mod Events
pub mod Handover
pub mod Retention
