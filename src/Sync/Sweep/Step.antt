-- ===== src/Sync/Sweep/Step.antt =====
-- The body of the sweep's loop, and the sweep (`executeSyncSweep` in sync/sweep.ts).
use codealmanac.Prelude.{
  get_key, ℕ, ◌+◌, Bool, true, false, ◌&&◌, not, Option, none, some, List, [], ◌∷◌, ◌++◌, Text,
  contains, if◌then◌else◌, or_else, length,
}
use codealmanac.Sync.Ledger.{
  SessionCandidate, LedgerEntry, SyncLedger, ledger_key, fresh_ledger_entry,
}
use codealmanac.Sync.Cursor.{
  TranscriptSnapshot, snapshot_of, SyncCursorDecision, skip, attention, ready, Enqueued, enqueued,
  refused, evaluate_sync_cursor, enqueue_absorb, internal_almanac_session, sync_already_running,
  read_failed,
}
use codealmanac.Sync.Sweep.{
  SyncMode, sync, status, TranscriptReadResult, unreadable, bytes, Seen, Sweep, add_skipped,
  add_attention, candidate_eligibility, load_session_ids, is_internal, load_ledger, put_ledger,
  with_entry, write_ledger,
}

abbrev pub is_sync : SyncMode → Bool
is_sync sync = true
is_sync status = false

-- The arguments of the sweep but for the candidates.
pub record SweepArgs : Type 0 where
  pub sync_since : Option ℕ
  pub quiet_ms : ℕ
  pub mode : SyncMode
  pub now : ℕ
  -- `now.toISOString()`
  pub now_text : Text

module _ (sha256 : List ℕ → Text) (line_time : Text → Option ℕ) (args : SweepArgs) where
  -- After `enqueueAbsorb`.
  unfoldable pub on_enqueued : SessionCandidate → ℕ → ℕ → SyncLedger → Enqueued → Sweep → Sweep
  on_enqueued c from_line to_line ledger (refused reason entry) s =
      write_ledger args.now_text c.repo_root (with_entry c entry ledger) (add_attention reason c s)
  on_enqueued c from_line to_line ledger (enqueued job_id entry) s =
      let written = write_ledger args.now_text c.repo_root (with_entry c entry ledger) s in
      record written {
        summary = record written.summary {
          started =
              written.summary.started
              ++ record { candidate = c; job_id = job_id; from_line = from_line; to_line = to_line }
                ∷ [];
        };
      }

  -- A transcript with something new.
  unfoldable pub on_ready :
      SyncMode
      → Seen
      → SessionCandidate
      → SyncLedger
      → LedgerEntry
      → TranscriptSnapshot
      → ℕ
      → ℕ
      → Sweep
      → Sweep
  on_ready status seen c ledger entry snapshot from_line to_line s = record s {
    summary = record s.summary {
      eligible = s.summary.eligible + 1;
      ready =
          s.summary.ready
          ++ record { candidate = c; from_line = from_line; to_line = to_line } ∷ [];
    };
  }
  on_ready sync seen c ledger entry snapshot from_line to_line s =
      on_enqueued c from_line to_line ledger
        (enqueue_absorb sha256 args.now_text seen.start entry from_line snapshot)
        (record s { summary = record s.summary { eligible = s.summary.eligible + 1 } })

  unfoldable pub on_decision :
      Seen
      → SessionCandidate
      → SyncLedger
      → LedgerEntry
      → TranscriptSnapshot
      → SyncCursorDecision
      → Sweep
      → Sweep
  on_decision seen c ledger entry snapshot (skip reason) s =
      add_skipped reason c (put_ledger c (with_entry c entry ledger) s)
  on_decision seen c ledger entry snapshot (attention reason marked) s =
      add_attention reason c (put_ledger c (with_entry c marked ledger) s)
  on_decision seen c ledger entry snapshot (ready from_line to_line) s =
      on_ready args.mode seen c (with_entry c entry ledger) entry snapshot from_line to_line
        (put_ledger c (with_entry c entry ledger) s)

  -- The entry of the candidate: the ledger's, or a fresh one.
  unfoldable pub entry_for : SessionCandidate → List ℕ → SyncLedger → LedgerEntry
  entry_for c content ledger =
      or_else (get_key (ledger_key c.app c.transcript_path) ledger.sessions)
        (fresh_ledger_entry sha256 line_time c content args.sync_since)

  unfoldable pub on_transcript :
      Seen → SessionCandidate → SyncLedger → TranscriptReadResult → Sweep → Sweep
  on_transcript seen c ledger (unreadable message) s = add_attention (read_failed message) c s
  on_transcript seen c ledger (bytes content) s =
      let entry = entry_for c content ledger in
      on_decision seen c ledger entry (snapshot_of content)
        (evaluate_sync_cursor sha256 entry (snapshot_of content)) s

  -- With the lock held, or in status mode.
  unfoldable pub on_locked : Seen → SessionCandidate → Sweep → Sweep
  on_locked seen c s =
      let ledger = load_ledger args.now_text seen c s in
      on_transcript seen c ledger seen.transcript (put_ledger c ledger s)

  unfoldable pub take_lock : Seen → SessionCandidate → Sweep → Sweep
  take_lock seen c s =
      if is_sync args.mode && not (contains c.repo_root s.held_locks)
      then (if seen.lock_free
          then on_locked seen c (record s { held_locks = c.repo_root ∷ s.held_locks })
          else add_skipped sync_already_running c s)
      else on_locked seen c s

  unfoldable pub on_eligible : Seen → SessionCandidate → Sweep → Sweep
  on_eligible seen c s =
      let known = load_session_ids seen c s in
      if is_internal c known
      then add_skipped internal_almanac_session c known
      else take_lock seen c known

  -- One round of the loop.
  unfoldable pub sweep_candidate : Seen → SessionCandidate → Sweep → Sweep
  sweep_candidate seen c s = elim (candidate_eligibility args.sync_since args.quiet_ms args.now c) [
    | some reason ↦ add_skipped reason c s
    | none ↦ on_eligible seen c s
  ]

  unfoldable pub sweep_all : List (Seen × SessionCandidate) → Sweep → Sweep
  sweep_all [] s = s
  sweep_all ((seen, c) ∷ rest) s = sweep_all rest (sweep_candidate seen c s)

  -- The last writes of a sync, ledger by ledger.
  unfoldable pub write_all : List (Text × SyncLedger) → Sweep → Sweep
  write_all [] s = s
  write_all ((repo, ledger) ∷ rest) s = write_all rest (write_ledger args.now_text repo ledger s)

  abbrev pub start_of_sweep : List (Seen × SessionCandidate) → Sweep
  start_of_sweep candidates = record {
    summary = record {
      scanned = length candidates;
      eligible = 0;
      ready = [];
      started = [];
      skipped = [];
      needs_attention = [];
    };
    ledgers = [];
    session_ids = [];
    held_locks = [];
    writes = [];
  }

  -- The sweep before its locks are released.
  unfoldable pub execute_sync_sweep : List (Seen × SessionCandidate) → Sweep
  execute_sync_sweep candidates =
      let swept = sweep_all candidates (start_of_sweep candidates) in
      if is_sync args.mode then write_all swept.ledgers swept else swept
