-- ===== src/Sync.antt =====
-- The sync of agent transcripts into the wiki: archive/code/src/sync/.
pub mod Utf8
pub mod Ledger
pub mod Cursor
pub mod Sweep
pub mod Lock
mod Tests
