-- ===== src/Sync.antt =====
-- src/sync: the block-scan pipeline.
pub mod Types
pub mod Scan
pub mod Engine
pub mod Fakes
pub mod Ledger
pub mod Agreement
pub mod Chain
pub mod Synced
pub mod Ancestor
pub mod WalkBack
pub mod Cursor
pub mod Rollback
pub mod Restart
pub mod Refinement
pub mod Behind
pub mod Balance
pub mod Wired
pub mod History
pub mod Interrupted
pub mod Indexed
pub mod Resumed
pub mod Redeemable
