-- ===== src/Sync/Resumed.antt =====
-- Passes of `sync` that fail, and the pass after them.
pub mod Within
pub mod Ahead
pub mod Blocks
pub mod Partial
pub mod Answers
pub mod Loop
pub mod Ready
pub mod Attempt
pub mod Recovery
