-- ===== src/Sync/Sweep/Modes.antt =====
-- `executeSyncSweep` in status mode.
use codealmanac.Prelude.{ℕ, ◌≡◌, refl, Option, List, [], Text, All-Unit, arith, if_intro}
use codealmanac.Sync.Ledger.{SessionCandidate, LedgerEntry, SyncLedger}
use codealmanac.Sync.Cursor.{
  TranscriptSnapshot, snapshot_of, SyncCursorDecision, skip, attention, ready,
}
use codealmanac.Sync.Sweep.{
  status, TranscriptReadResult, unreadable, bytes, Seen, Sweep, add_skipped, add_attention,
  load_session_ids, load_ledger, put_ledger,
}
use codealmanac.Sync.Sweep.Step.{
  SweepArgs, is_sync, on_ready, on_decision, on_transcript, on_locked, entry_for,
  execute_sync_sweep, start_of_sweep,
}
use codealmanac.Sync.Sweep.Rules.{SweepRules, sweep_all-keeps}

-- Nothing was started, written or locked.
pub record IsReadOnly (s : Sweep) : Type 0 where
  pub no_writes : s.writes ≡ []
  pub no_locks : s.held_locks ≡ []
  pub none_started : s.summary.started ≡ []

module _ (sha256 : List ℕ → Text) (line_time : Text → Option ℕ) (args : SweepArgs) where
  on_decision-IsReadOnly :
      (seen : Seen) (c : SessionCandidate) (ledger : SyncLedger) (entry : LedgerEntry)
      (snapshot : TranscriptSnapshot) (d : SyncCursorDecision) (s : Sweep)
      → args.mode ≡ status
      → IsReadOnly s
      → IsReadOnly (on_decision sha256 line_time args seen c ledger entry snapshot d s)
  unfolding on_decision on_ready add_skipped add_attention put_ledger
  on_decision-IsReadOnly seen c ledger entry snapshot (skip reason) s m h = ground arith
  on_decision-IsReadOnly seen c ledger entry snapshot (attention reason marked) s m h = ground arith
  on_decision-IsReadOnly seen c ledger entry snapshot (ready from_line to_line) s m h = ground arith

  on_transcript-IsReadOnly :
      (seen : Seen) (c : SessionCandidate) (ledger : SyncLedger) (t : TranscriptReadResult)
      (s : Sweep)
      → args.mode ≡ status
      → IsReadOnly s
      → IsReadOnly (on_transcript sha256 line_time args seen c ledger t s)
  unfolding on_transcript add_attention
  on_transcript-IsReadOnly seen c ledger (unreadable message) s m h = ground arith
  on_transcript-IsReadOnly seen c ledger (bytes content) s m h =
      on_decision-IsReadOnly seen c ledger (entry_for sha256 line_time args c content ledger)
        (snapshot_of content) _ s m h

  IsReadOnly-rules : args.mode ≡ status → SweepRules sha256 line_time args (λ _ _. Unit) IsReadOnly
  unfolding add_skipped load_session_ids on_locked put_ledger
  IsReadOnly-rules m = record {
    on_skip = λ reason c s h. ground arith;
    on_ids = λ seen c s h. ground arith;
    on_lock = λ c s e h. ground arith;
    on_body = λ seen c s fair lock h.
        on_transcript-IsReadOnly seen c (load_ledger args.now_text seen c s) seen.transcript
          (put_ledger c (load_ledger args.now_text seen c s) s) m
          (record {
            no_writes = h.no_writes;
            no_locks = h.no_locks;
            none_started = h.none_started;
          });
  }

  -- In status mode a sweep writes no ledger, takes no lock and starts no job, whatever the
  -- candidates and whatever the world answers.
  pub execute_sync_sweep-IsReadOnly :
      (candidates : List (Seen × SessionCandidate))
      → args.mode ≡ status
      → IsReadOnly (execute_sync_sweep sha256 line_time args candidates)
  unfolding execute_sync_sweep
  execute_sync_sweep-IsReadOnly candidates m =
      let swept =
        sweep_all-keeps sha256 line_time args (IsReadOnly-rules m) candidates
          (start_of_sweep sha256 line_time args candidates) (All-Unit candidates)
          (record { no_writes = refl; no_locks = refl; none_started = refl }) in
      if_intro IsReadOnly (is_sync args.mode) _ _ (λ e. ground arith) (λ e. swept)
