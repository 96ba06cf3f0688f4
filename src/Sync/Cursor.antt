-- ===== src/Sync/Cursor.antt =====
-- Where a transcript has been absorbed up to (sync/sweep.ts: `evaluateSyncCursor`,
-- `enqueueAbsorb`).
pub mod Lines
pub mod Initial
pub mod Progress
use codealmanac.Prelude.{
  ℕ, ◌+◌, Bool, true, false, Option, none, some, List, [], ◌∷◌, take, Text, same, codes, leb,
  if◌then◌else◌, ◌≤◌, ◌≡◌, length,
}
use codealmanac.Sync.Ledger.{
  SessionCandidate, LedgerEntry, LedgerStatus, done, pending, failed, needs_attention, sync_cursor,
  count_lines,
}

pub record TranscriptSnapshot : Type 0 where
  pub content : List ℕ
  pub current_size : ℕ
  pub current_line : ℕ

-- The snapshot that `readTranscriptSnapshot` takes of the bytes of a transcript.
unfoldable pub snapshot_of : List ℕ → TranscriptSnapshot
snapshot_of content = record {
  content = content;
  current_size = length content;
  current_line = count_lines content;
}

-- The reasons of skips and of calls for attention, one for each text in the source.
pub data Reason : Type 0 where
  before_automation_activation quiet_window internal_almanac_session sync_already_running : Reason
  sync_already_pending unchanged prefix_mismatch absorb_start_failed : Reason
  read_failed : Text → Reason

pub data SyncCursorDecision : Type 0 where
  skip : Reason → SyncCursorDecision
  attention : Reason → LedgerEntry → SyncCursorDecision
  ready : ℕ → ℕ → SyncCursorDecision

unfoldable pub mark_prefix_mismatch : LedgerEntry → LedgerEntry
mark_prefix_mismatch entry = record entry {
  status = needs_attention;
  last_error = some (codes "transcript prefix no longer matches ledger cursor");
}

abbrev pub is_pending : LedgerStatus → Bool
is_pending pending = true
is_pending _ = false

-- What the absorb job is told about the new part of the transcript.
pub record CursorContext : Type 0 where
  pub from_line : ℕ
  pub last_absorbed_line : ℕ
  pub last_absorbed_size : ℕ

abbrev pub cursor_context : LedgerEntry → ℕ → CursorContext
cursor_context entry from_line = record {
  from_line = from_line;
  last_absorbed_line = entry.last_absorbed_line;
  last_absorbed_size = entry.last_absorbed_size;
}

pub data StartResult : Type 0 where
  started : Text → StartResult
  start_failed : Text → StartResult

pub data Enqueued : Type 0 where
  enqueued : Text → LedgerEntry → Enqueued
  refused : Reason → LedgerEntry → Enqueued

module _ (sha256 : List ℕ → Text) where
  unfoldable pub evaluate_sync_cursor : LedgerEntry → TranscriptSnapshot → SyncCursorDecision
  unfolding mark_prefix_mismatch
  evaluate_sync_cursor entry snapshot =
      if is_pending entry.status
      then skip sync_already_pending
      else if leb snapshot.current_size entry.last_absorbed_size
      then skip unchanged
      else if same (sha256 (take entry.last_absorbed_size snapshot.content))
          entry.last_absorbed_prefix_hash
      then ready (entry.last_absorbed_line + 1) snapshot.current_line
      else attention prefix_mismatch (mark_prefix_mismatch entry)

  unfoldable pub mark_pending : Text → LedgerEntry → TranscriptSnapshot → Text → LedgerEntry
  unfolding sync_cursor
  mark_pending now entry snapshot job_id =
      let cursor = sync_cursor sha256 snapshot.content snapshot.current_line in
      record entry {
        status = pending;
        pending_to_size = some cursor.size;
        pending_to_line = some cursor.line;
        pending_prefix_hash = some cursor.prefix_hash;
        pending_job_id = some job_id;
        pending_started_at = some now;
        last_job_id = some job_id;
        last_error = none;
      }

  -- What `enqueueAbsorb` makes of the answer of `startAbsorb`.
  unfoldable pub on_started : Text → LedgerEntry → TranscriptSnapshot → StartResult → Enqueued
  on_started now entry snapshot (start_failed error) =
      refused absorb_start_failed (record entry { status = failed; last_error = some error })
  on_started now entry snapshot (started job_id) =
      enqueued job_id (mark_pending now entry snapshot job_id)

  -- `enqueueAbsorb`; `start` is the call of `startAbsorb` for the candidate.
  unfoldable pub enqueue_absorb :
      Text → (CursorContext → StartResult) → LedgerEntry → ℕ → TranscriptSnapshot → Enqueued
  unfolding on_started
  enqueue_absorb now start entry from_line snapshot =
      on_started now entry snapshot (start (cursor_context entry from_line))
