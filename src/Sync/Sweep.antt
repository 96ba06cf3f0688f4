-- ===== src/Sync/Sweep.antt =====
-- `executeSyncSweep` (sync/sweep.ts).
--
-- Each candidate of the loop comes with what the sweep observes of the world when it handles it:
-- other processes may change locks, jobs and transcripts between two candidates.
pub mod Step
pub mod Counts
pub mod Rules
pub mod Modes
pub mod Guarded
pub mod Tracking
pub mod Once
use codealmanac.Prelude.{
  get_key, set_key, get_key-set_key, ℕ, ◌+◌, Bool, true, false, ◌&&◌, ◌||◌, not, Option, none, some,
  List, [], ◌∷◌, ◌++◌, Text, same, contains, leb, ltb, if◌then◌else◌, or_else, length, is_empty,
}
use codealmanac.Jobs.Record.{JobRecord}
use codealmanac.Sync.Ledger.{
  SweepApp, SessionCandidate, LedgerEntry, SyncLedger, Sessions, ledger_key, fresh_ledger_entry,
}
use codealmanac.Sync.Ledger.Reconcile.{reconcile_ledger}
use codealmanac.Sync.Cursor.{
  TranscriptSnapshot, snapshot_of, Reason, SyncCursorDecision, skip, attention, ready,
  CursorContext, StartResult, Enqueued, enqueued, refused, evaluate_sync_cursor, enqueue_absorb,
  before_automation_activation, quiet_window, internal_almanac_session, sync_already_running,
  read_failed,
}

pub data SyncMode : Type 0 where
  sync status : SyncMode

pub record SyncStarted : Type 0 where
  pub candidate : SessionCandidate
  pub job_id : Text
  pub from_line : ℕ
  pub to_line : ℕ

pub record SyncReady : Type 0 where
  pub candidate : SessionCandidate
  pub from_line : ℕ
  pub to_line : ℕ

pub record SyncSkipped : Type 0 where
  pub candidate : SessionCandidate
  pub reason : Reason

pub record SyncSummary : Type 0 where
  pub scanned : ℕ
  pub eligible : ℕ
  pub ready : List SyncReady
  pub started : List SyncStarted
  pub skipped : List SyncSkipped
  pub needs_attention : List SyncSkipped

pub data TranscriptReadResult : Type 0 where
  unreadable : Text → TranscriptReadResult
  bytes : List ℕ → TranscriptReadResult

-- What the world answers while one candidate is handled.
pub record Seen : Type 0 where
  -- `acquireRepoSyncLock` succeeds
  pub lock_free : Bool
  -- the `providerSessionId`s of the repository's job records, where they are set
  pub job_sessions : List Text
  -- the ledger file, normalised
  pub stored : SyncLedger
  -- the job records, by id
  pub jobs : Text → Option JobRecord
  pub transcript : TranscriptReadResult
  pub start : CursorContext → StartResult

-- The variables of the sweep; `writes` logs the calls of `writeLedger`, the latest first.
pub record Sweep : Type 0 where
  pub summary : SyncSummary
  pub ledgers : List (Text × SyncLedger)
  pub session_ids : List (Text × List Text)
  pub held_locks : List Text
  pub writes : List (Text × SyncLedger)

unfoldable pub add_skipped : Reason → SessionCandidate → Sweep → Sweep
add_skipped reason c s = record s {
  summary = record s.summary {
    skipped = s.summary.skipped ++ record { candidate = c; reason = reason } ∷ [];
  };
}

unfoldable pub add_attention : Reason → SessionCandidate → Sweep → Sweep
add_attention reason c s = record s {
  summary = record s.summary {
    needs_attention = s.summary.needs_attention ++ record { candidate = c; reason = reason } ∷ [];
  };
}

-- `syncSince !== null && mtimeMs < syncSince`
abbrev pub is_before : ℕ → Option ℕ → Bool
is_before mtime none = false
is_before mtime (some since) = ltb mtime since

-- `candidateEligibility`; `now - mtime < quiet` is written without a subtraction.
unfoldable pub candidate_eligibility : Option ℕ → ℕ → ℕ → SessionCandidate → Option Reason
candidate_eligibility since quiet_ms now c =
    if is_before c.mtime_ms since
    then some before_automation_activation
    else if ltb now (c.mtime_ms + quiet_ms)
    then some quiet_window
    else none

-- The session ids of the repository, read once and then kept.
unfoldable pub load_session_ids : Seen → SessionCandidate → Sweep → Sweep
unfolding get_key set_key
load_session_ids seen c s = record s {
  session_ids = elim (get_key c.repo_root s.session_ids) [
    | some ids ↦ s.session_ids
    | none ↦ set_key c.repo_root seen.job_sessions s.session_ids
  ];
}

unfoldable pub is_internal : SessionCandidate → Sweep → Bool
unfolding get_key
is_internal c s = contains c.session_id (or_else (get_key c.repo_root s.session_ids) [])

-- The ledger of the repository, loaded once and reconciled for each candidate.
unfoldable pub load_ledger : Text → Seen → SessionCandidate → Sweep → SyncLedger
load_ledger now seen c s =
    reconcile_ledger now seen.jobs (or_else (get_key c.repo_root s.ledgers) seen.stored)

unfoldable pub put_ledger : SessionCandidate → SyncLedger → Sweep → Sweep
put_ledger c ledger s = record s { ledgers = set_key c.repo_root ledger s.ledgers }

abbrev pub with_entry : SessionCandidate → LedgerEntry → SyncLedger → SyncLedger
with_entry c entry ledger = record ledger {
  sessions = set_key (ledger_key c.app c.transcript_path) entry ledger.sessions;
}

-- `writeLedger`: the ledger's `updatedAt` is set, and the ledger goes to disk.
unfoldable pub write_ledger : Text → Text → SyncLedger → Sweep → Sweep
write_ledger now repo ledger s =
    let stamped = record ledger { updated_at = now } in
    record s { ledgers = set_key repo stamped s.ledgers; writes = (repo, stamped) ∷ s.writes }
