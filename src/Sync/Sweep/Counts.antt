-- ===== src/Sync/Sweep/Counts.antt =====
-- The four lists of the summary of `executeSyncSweep`.
use codealmanac.Prelude.{
  ℕ, ◌+◌, ◌≡◌, refl, Option, List, [], ◌∷◌, Text, length, length-snoc, arith, ◌∙◌, Option-cases,
  inl, inr,
}
use codealmanac.Sync.Ledger.{SessionCandidate, LedgerEntry, SyncLedger}
use codealmanac.Sync.Cursor.{
  TranscriptSnapshot, snapshot_of, SyncCursorDecision, skip, attention, ready, Enqueued, enqueued,
  refused, Reason, evaluate_sync_cursor, read_failed, internal_almanac_session,
  sync_already_running,
}
use codealmanac.Sync.Sweep.{
  SyncMode, sync, status, TranscriptReadResult, unreadable, bytes, Seen, Sweep, add_skipped,
  add_attention, candidate_eligibility, load_session_ids, load_ledger, with_entry, put_ledger,
  write_ledger,
}
use codealmanac.Sync.Sweep.Step.{
  SweepArgs, entry_for, on_enqueued, on_ready, on_decision, on_transcript, on_locked, take_lock,
  on_eligible, sweep_candidate, sweep_all, write_all, execute_sync_sweep, start_of_sweep,
}

-- How many outcomes the summary lists.
abbrev pub outcomes : Sweep → ℕ
outcomes s =
    length s.summary.ready
    + length s.summary.started
    + length s.summary.skipped
    + length s.summary.needs_attention

outcomes-add_skipped :
    (reason : Reason) (c : SessionCandidate) (s : Sweep)
    → outcomes (add_skipped reason c s) ≡ outcomes s + 1
unfolding add_skipped
outcomes-add_skipped reason c s =
    omega (arith, length-snoc s.summary.skipped (record { candidate = c; reason = reason }))

outcomes-add_attention :
    (reason : Reason) (c : SessionCandidate) (s : Sweep)
    → outcomes (add_attention reason c s) ≡ outcomes s + 1
unfolding add_attention
outcomes-add_attention reason c s =
    omega (arith, length-snoc s.summary.needs_attention (record { candidate = c; reason = reason }))

outcomes-put_ledger :
    (c : SessionCandidate) (ledger : SyncLedger) (s : Sweep)
    → outcomes (put_ledger c ledger s) ≡ outcomes s
unfolding put_ledger
outcomes-put_ledger c ledger s = refl

outcomes-write_ledger :
    (now : Text) (repo : Text) (ledger : SyncLedger) (s : Sweep)
    → outcomes (write_ledger now repo ledger s) ≡ outcomes s
unfolding write_ledger
outcomes-write_ledger now repo ledger s = refl

outcomes-load_session_ids :
    (seen : Seen) (c : SessionCandidate) (s : Sweep)
    → outcomes (load_session_ids seen c s) ≡ outcomes s
unfolding load_session_ids
outcomes-load_session_ids seen c s = ground arith

module _ (sha256 : List ℕ → Text) (line_time : Text → Option ℕ) (args : SweepArgs) where
  outcomes-on_enqueued :
      (c : SessionCandidate) (from_line to_line : ℕ) (ledger : SyncLedger) (e : Enqueued)
      (s : Sweep)
      → outcomes (on_enqueued sha256 line_time args c from_line to_line ledger e s) ≡ outcomes s + 1
  unfolding on_enqueued write_ledger add_attention
  outcomes-on_enqueued c from_line to_line ledger (refused reason entry) s =
      omega
        (arith, length-snoc s.summary.needs_attention (record { candidate = c; reason = reason }))
  outcomes-on_enqueued c from_line to_line ledger (enqueued job_id entry) s = omega (
    arith,
    length-snoc s.summary.started
        (record { candidate = c; job_id = job_id; from_line = from_line; to_line = to_line }),
  )

  outcomes-on_ready :
      (mode : SyncMode) (seen : Seen) (c : SessionCandidate) (ledger : SyncLedger)
      (entry : LedgerEntry) (snapshot : TranscriptSnapshot) (from_line to_line : ℕ) (s : Sweep)
      → outcomes
          (on_ready sha256 line_time args mode seen c ledger entry snapshot from_line to_line s)
        ≡ outcomes s + 1
  unfolding on_ready
  outcomes-on_ready status seen c ledger entry snapshot from_line to_line s = omega (
    arith,
    length-snoc s.summary.ready
        (record { candidate = c; from_line = from_line; to_line = to_line }),
  )
  outcomes-on_ready sync seen c ledger entry snapshot from_line to_line s =
      outcomes-on_enqueued c from_line to_line ledger _ _

  outcomes-on_decision :
      (seen : Seen) (c : SessionCandidate) (ledger : SyncLedger) (entry : LedgerEntry)
      (snapshot : TranscriptSnapshot) (d : SyncCursorDecision) (s : Sweep)
      → outcomes (on_decision sha256 line_time args seen c ledger entry snapshot d s)
        ≡ outcomes s + 1
  unfolding on_decision put_ledger
  outcomes-on_decision seen c ledger entry snapshot (skip reason) s =
      outcomes-add_skipped reason c (put_ledger c (with_entry c entry ledger) s)
  outcomes-on_decision seen c ledger entry snapshot (attention reason marked) s =
      outcomes-add_attention reason c (put_ledger c (with_entry c marked ledger) s)
  outcomes-on_decision seen c ledger entry snapshot (ready from_line to_line) s =
      outcomes-on_ready args.mode seen c (with_entry c entry ledger) entry snapshot from_line
        to_line (put_ledger c (with_entry c entry ledger) s)

  outcomes-on_transcript :
      (seen : Seen) (c : SessionCandidate) (ledger : SyncLedger) (t : TranscriptReadResult)
      (s : Sweep)
      → outcomes (on_transcript sha256 line_time args seen c ledger t s) ≡ outcomes s + 1
  unfolding on_transcript
  outcomes-on_transcript seen c ledger (unreadable message) s =
      outcomes-add_attention (read_failed message) c s
  outcomes-on_transcript seen c ledger (bytes content) s =
      let entry = entry_for sha256 line_time args c content ledger in
      outcomes-on_decision seen c ledger entry (snapshot_of content)
        (evaluate_sync_cursor sha256 entry (snapshot_of content)) s

  outcomes-on_locked :
      (seen : Seen) (c : SessionCandidate) (s : Sweep)
      → outcomes (on_locked sha256 line_time args seen c s) ≡ outcomes s + 1
  unfolding on_locked put_ledger
  outcomes-on_locked seen c s =
      outcomes-on_transcript seen c (load_ledger args.now_text seen c s) seen.transcript
        (put_ledger c (load_ledger args.now_text seen c s) s)

  outcomes-take_lock :
      (seen : Seen) (c : SessionCandidate) (s : Sweep)
      → outcomes (take_lock sha256 line_time args seen c s) ≡ outcomes s + 1
  unfolding take_lock
  outcomes-take_lock seen c s = ground (
    arith,
    outcomes-on_locked seen c (record s { held_locks = c.repo_root ∷ s.held_locks }),
    outcomes-on_locked seen c s,
    outcomes-add_skipped sync_already_running c s,
  )

  outcomes-on_eligible :
      (seen : Seen) (c : SessionCandidate) (s : Sweep)
      → outcomes (on_eligible sha256 line_time args seen c s) ≡ outcomes s + 1
  unfolding on_eligible
  outcomes-on_eligible seen c s =
      let known = load_session_ids seen c s in
      ground (
        arith,
        outcomes-take_lock seen c known,
        outcomes-add_skipped internal_almanac_session c known,
        outcomes-load_session_ids seen c s,
      )

  outcomes-sweep_candidate :
      (seen : Seen) (c : SessionCandidate) (s : Sweep)
      → outcomes (sweep_candidate sha256 line_time args seen c s) ≡ outcomes s + 1
  unfolding sweep_candidate
  outcomes-sweep_candidate seen c s =
      elim (Option-cases (candidate_eligibility args.sync_since args.quiet_ms args.now c)) [
        | inr (reason, e) ↦ rw (e, sweep_candidate) (outcomes-add_skipped reason c s)
        | inl e ↦ rw (e, sweep_candidate) (outcomes-on_eligible seen c s)
      ]

  outcomes-sweep_all :
      (candidates : List (Seen × SessionCandidate)) (s : Sweep)
      → outcomes (sweep_all sha256 line_time args candidates s) ≡ outcomes s + length candidates
  unfolding sweep_all
  outcomes-sweep_all [] s = omega arith
  outcomes-sweep_all ((seen, c) ∷ rest) s = omega (
    arith,
    outcomes-sweep_all rest (sweep_candidate sha256 line_time args seen c s),
    outcomes-sweep_candidate seen c s,
  )

  outcomes-write_all :
      (ledgers : List (Text × SyncLedger)) (s : Sweep)
      → outcomes (write_all sha256 line_time args ledgers s) ≡ outcomes s
  unfolding write_all
  outcomes-write_all [] s = refl
  outcomes-write_all ((repo, ledger) ∷ rest) s =
      outcomes-write_all rest (write_ledger args.now_text repo ledger s)
      ∙ outcomes-write_ledger args.now_text repo ledger s

  -- Whatever the world answers, the lengths of the four lists of a sweep's summary (ready,
  -- started, skipped, needs attention) add up to the number of candidates.
  pub execute_sync_sweep-outcomes :
      (candidates : List (Seen × SessionCandidate))
      → outcomes (execute_sync_sweep sha256 line_time args candidates) ≡ length candidates
  unfolding execute_sync_sweep
  execute_sync_sweep-outcomes candidates =
      let swept =
        sweep_all sha256 line_time args candidates
          (start_of_sweep sha256 line_time args candidates) in
      ground (
        arith,
        outcomes-sweep_all candidates (start_of_sweep sha256 line_time args candidates),
        outcomes-write_all swept.ledgers swept,
      )
