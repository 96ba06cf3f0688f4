-- ===== src/Jobs.antt =====
-- The jobs that run agents in the background: archive/code/src/jobs/.
pub mod Record
pub mod View
pub mod Store
pub mod Finalization
pub mod Execution
pub mod Start
pub mod Queue
pub mod Worker
pub mod Snapshots
mod Tests
