-- ===== src/Sync/Ledger/Reconcile.antt =====
-- `reconcileLedger` (sync/ledger.ts): pending entries whose job has ended.
use codealmanac.Prelude.{Option, none, some, [], ◌∷◌, ◌++◌, Text, codes, or_else, or_next}
use codealmanac.Sync.Ledger.{LedgerEntry, LedgerStatus, Sessions, SyncLedger}
use codealmanac.Jobs.Record.{JobStatus, JobRecord, HarnessFailure}

abbrev failure_message : Option HarnessFailure → Option Text
failure_message none = none
failure_message (some failure) = some failure.message

abbrev status_name : JobStatus → Text
status_name JobStatus.queued = codes "queued"
status_name JobStatus.running = codes "running"
status_name JobStatus.done = codes "done"
status_name JobStatus.failed = codes "failed"
status_name JobStatus.cancelled = codes "cancelled"

unfoldable pub terminal_job_error : JobRecord → Text
terminal_job_error job =
    or_else (or_next job.error (failure_message job.failure))
      (codes "sync absorb " ++ status_name job.status)

unfoldable pub clear_pending : LedgerEntry → LedgerEntry
clear_pending entry = record entry {
  pending_to_size = none;
  pending_to_line = none;
  pending_prefix_hash = none;
  pending_job_id = none;
  pending_started_at = none;
}

unfoldable pub absorb_done : Text → LedgerEntry → LedgerEntry
absorb_done now entry = record entry {
  status = LedgerStatus.done;
  last_absorbed_size = or_else entry.pending_to_size entry.last_absorbed_size;
  last_absorbed_line = or_else entry.pending_to_line entry.last_absorbed_line;
  last_absorbed_prefix_hash = or_else entry.pending_prefix_hash entry.last_absorbed_prefix_hash;
  last_absorbed_at = some now;
  last_job_id = entry.pending_job_id;
}

unfoldable pub absorb_failed : JobRecord → LedgerEntry → LedgerEntry
unfolding terminal_job_error
absorb_failed job entry = record entry {
  status = LedgerStatus.failed;
  last_job_id = entry.pending_job_id;
  last_error = some (terminal_job_error job);
}

-- By the status of the job; a missing record is left to a later sync.
unfoldable pub settle : Text → LedgerEntry → Option JobRecord → LedgerEntry
unfolding absorb_done absorb_failed clear_pending
settle now entry none = entry
settle now entry (some job) = elim job.status [
  | JobStatus.queued ↦ entry
  | JobStatus.running ↦ entry
  | JobStatus.done ↦ clear_pending (absorb_done now entry)
  | JobStatus.failed ↦ clear_pending (absorb_failed job entry)
  | JobStatus.cancelled ↦ clear_pending (absorb_failed job entry)
]

abbrev pending_job : LedgerStatus → Option Text → Option Text
pending_job LedgerStatus.pending job_id = job_id
pending_job _ job_id = none

-- The loop's body, over the job records of the repository.
unfoldable pub reconcile_entry : Text → (Text → Option JobRecord) → LedgerEntry → LedgerEntry
unfolding settle
reconcile_entry now jobs entry = elim (pending_job entry.status entry.pending_job_id) [
  | none ↦ entry
  | some job_id ↦ settle now entry (jobs job_id)
]

unfoldable pub reconcile_sessions : Text → (Text → Option JobRecord) → Sessions → Sessions
reconcile_sessions now jobs [] = []
reconcile_sessions now jobs ((key, entry) ∷ rest) =
    (key, reconcile_entry now jobs entry) ∷ reconcile_sessions now jobs rest

unfoldable pub reconcile_ledger : Text → (Text → Option JobRecord) → SyncLedger → SyncLedger
unfolding reconcile_sessions
reconcile_ledger now jobs ledger = record ledger {
  sessions = reconcile_sessions now jobs ledger.sessions;
}
