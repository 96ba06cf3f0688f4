-- ===== src/Sync/Sweep/Guarded.antt =====
-- `executeSyncSweep` and the locks of the repositories.
use codealmanac.Prelude.{
  set_key, ℕ, true, ◌≡◌, Option, List, [], ◌∷◌, Text, same, contains, contains_tail, All,
  All-append, All-weaken, All-Unit, if_intro,
}
use codealmanac.Sync.Ledger.{SessionCandidate, LedgerEntry, SyncLedger}
use codealmanac.Sync.Cursor.{
  TranscriptSnapshot, snapshot_of, SyncCursorDecision, skip, attention, ready, Enqueued, enqueued,
  refused, enqueue_absorb,
}
use codealmanac.Sync.Sweep.{
  SyncMode, sync, status, TranscriptReadResult, unreadable, bytes, Seen, Sweep, add_skipped,
  add_attention, load_session_ids, load_ledger, put_ledger, with_entry, write_ledger,
}
use codealmanac.Sync.Sweep.Step.{
  SweepArgs, is_sync, on_enqueued, on_ready, on_decision, on_transcript, on_locked, entry_for,
  sweep_all, write_all, execute_sync_sweep, start_of_sweep,
}
use codealmanac.Sync.Sweep.Rules.{SweepRules, sweep_all-keeps}

abbrev pub Held : Sweep → Text → Type 0
Held s repo = contains repo s.held_locks ≡ true

-- The repositories of all writes, started jobs and loaded ledgers are locked.
pub record IsGuarded (s : Sweep) : Type 0 where
  pub writes : All (λ w. Held s w.0) s.writes
  pub started : All (λ x. Held s x.candidate.repo_root) s.summary.started
  pub ledgers : All (λ l. Held s l.0) s.ledgers

All-set_key :
    {V : Type 0} (P : Text → Type 0) (key : Text) (v : V) (xs : List (Text × V))
    → P key
    → All (λ x. P x.0) xs
    → All (λ x. P x.0) (set_key key v xs)
unfolding set_key
All-set_key P key v [] p h = (p, tt)
All-set_key P key v ((k, w) ∷ xs) p (q, h) =
    if_intro (All (λ x. P x.0)) (same k key) _ _ (λ e. (q, h))
      (λ e. (q, All-set_key P key v xs p h))

module _ (sha256 : List ℕ → Text) (line_time : Text → Option ℕ) (args : SweepArgs) where
  IsGuarded-put_ledger :
      (c : SessionCandidate) (ledger : SyncLedger) (s : Sweep)
      → Held s c.repo_root
      → IsGuarded s
      → IsGuarded (put_ledger c ledger s)
  unfolding put_ledger
  IsGuarded-put_ledger c ledger s held h = record {
    writes = h.writes;
    started = h.started;
    ledgers = All-set_key (Held s) c.repo_root ledger s.ledgers held h.ledgers;
  }

  IsGuarded-write_ledger :
      (repo : Text) (ledger : SyncLedger) (s : Sweep)
      → Held s repo
      → IsGuarded s
      → IsGuarded (write_ledger args.now_text repo ledger s)
  unfolding write_ledger
  IsGuarded-write_ledger repo ledger s held h = record {
    writes = (held, h.writes);
    started = h.started;
    ledgers =
        All-set_key (Held s) repo (record ledger { updated_at = args.now_text }) s.ledgers held
          h.ledgers;
  }

  on_enqueued-IsGuarded :
      (c : SessionCandidate) (from_line to_line : ℕ) (ledger : SyncLedger) (e : Enqueued)
      (s : Sweep)
      → Held s c.repo_root
      → IsGuarded s
      → IsGuarded (on_enqueued sha256 line_time args c from_line to_line ledger e s)
  unfolding on_enqueued write_ledger add_attention
  on_enqueued-IsGuarded c from_line to_line ledger (refused reason entry) s held h =
      let w = IsGuarded-write_ledger c.repo_root (with_entry c entry ledger) s held h in
      record { writes = w.writes; started = w.started; ledgers = w.ledgers }
  on_enqueued-IsGuarded c from_line to_line ledger (enqueued job_id entry) s held h =
      let w = IsGuarded-write_ledger c.repo_root (with_entry c entry ledger) s held h in
      record {
        writes = w.writes;
        started =
            All-append (λ x. Held s x.candidate.repo_root) s.summary.started _ h.started (held, tt);
        ledgers = w.ledgers;
      }

  on_ready-IsGuarded :
      (mode : SyncMode) (seen : Seen) (c : SessionCandidate) (ledger : SyncLedger)
      (entry : LedgerEntry) (snapshot : TranscriptSnapshot) (from_line to_line : ℕ) (s : Sweep)
      → Held s c.repo_root
      → IsGuarded s
      → IsGuarded
          (on_ready sha256 line_time args mode seen c ledger entry snapshot from_line to_line s)
  unfolding on_ready
  on_ready-IsGuarded status seen c ledger entry snapshot from_line to_line s held h = record {
    writes = h.writes;
    started = h.started;
    ledgers = h.ledgers;
  }
  on_ready-IsGuarded sync seen c ledger entry snapshot from_line to_line s held h =
      on_enqueued-IsGuarded c from_line to_line ledger
        (enqueue_absorb sha256 args.now_text seen.start entry from_line snapshot) _ held
        (record { writes = h.writes; started = h.started; ledgers = h.ledgers })

  on_decision-IsGuarded :
      (seen : Seen) (c : SessionCandidate) (ledger : SyncLedger) (entry : LedgerEntry)
      (snapshot : TranscriptSnapshot) (d : SyncCursorDecision) (s : Sweep)
      → Held s c.repo_root
      → IsGuarded s
      → IsGuarded (on_decision sha256 line_time args seen c ledger entry snapshot d s)
  unfolding on_decision add_skipped add_attention put_ledger
  on_decision-IsGuarded seen c ledger entry snapshot (skip reason) s held h =
      let w = IsGuarded-put_ledger c (with_entry c entry ledger) s held h in
      record { writes = w.writes; started = w.started; ledgers = w.ledgers }
  on_decision-IsGuarded seen c ledger entry snapshot (attention reason marked) s held h =
      let w = IsGuarded-put_ledger c (with_entry c marked ledger) s held h in
      record { writes = w.writes; started = w.started; ledgers = w.ledgers }
  on_decision-IsGuarded seen c ledger entry snapshot (ready from_line to_line) s held h =
      on_ready-IsGuarded args.mode seen c (with_entry c entry ledger) entry snapshot from_line
        to_line (put_ledger c (with_entry c entry ledger) s) held
        (IsGuarded-put_ledger c (with_entry c entry ledger) s held h)

  on_transcript-IsGuarded :
      (seen : Seen) (c : SessionCandidate) (ledger : SyncLedger) (t : TranscriptReadResult)
      (s : Sweep)
      → Held s c.repo_root
      → IsGuarded s
      → IsGuarded (on_transcript sha256 line_time args seen c ledger t s)
  unfolding on_transcript add_attention
  on_transcript-IsGuarded seen c ledger (unreadable message) s held h = record {
    writes = h.writes;
    started = h.started;
    ledgers = h.ledgers;
  }
  on_transcript-IsGuarded seen c ledger (bytes content) s held h =
      on_decision-IsGuarded seen c ledger (entry_for sha256 line_time args c content ledger)
        (snapshot_of content) _ s held h

  IsGuarded-rules :
      is_sync args.mode ≡ true → SweepRules sha256 line_time args (λ _ _. Unit) IsGuarded
  unfolding add_skipped load_session_ids on_locked put_ledger
  IsGuarded-rules m = record {
    on_skip =
        λ reason c s h. record { writes = h.writes; started = h.started; ledgers = h.ledgers };
    on_ids = λ seen c s h. record { writes = h.writes; started = h.started; ledgers = h.ledgers };
    on_lock = λ c s e h. record {
      writes = All-weaken s.writes (λ w k. contains_tail w.0 c.repo_root s.held_locks k) h.writes;
      started =
          All-weaken s.summary.started
            (λ w k. contains_tail w.candidate.repo_root c.repo_root s.held_locks k) h.started;
      ledgers =
          All-weaken s.ledgers (λ w k. contains_tail w.0 c.repo_root s.held_locks k) h.ledgers;
    };
    on_body = λ seen c s fair lock h.
        on_transcript-IsGuarded seen c (load_ledger args.now_text seen c s) seen.transcript
          (put_ledger c (load_ledger args.now_text seen c s) s) (lock m)
          (IsGuarded-put_ledger c (load_ledger args.now_text seen c s) s (lock m) h);
  }

  write_all-IsGuarded :
      (ledgers : List (Text × SyncLedger)) (s : Sweep)
      → All (λ l. Held s l.0) ledgers
      → IsGuarded s
      → IsGuarded (write_all sha256 line_time args ledgers s)
  unfolding write_all
  write_all-IsGuarded [] s helds h = h
  write_all-IsGuarded ((repo, ledger) ∷ rest) s (held, helds) h =
      write_all-IsGuarded rest (write_ledger args.now_text repo ledger s)
        (All-weaken rest (λ l k. Held-write_ledger l.0 k) helds)
        (IsGuarded-write_ledger repo ledger s held h)
    where
      Held-write_ledger :
          (key : Text) → Held s key → Held (write_ledger args.now_text repo ledger s) key
      Held-write_ledger key k = unfold write_ledger in k

  -- In a sync, each ledger that is written and each job that is started belongs to a repository
  -- whose sync lock the sweep holds, whatever the world answers.
  pub execute_sync_sweep-IsGuarded :
      (candidates : List (Seen × SessionCandidate))
      → is_sync args.mode ≡ true
      → IsGuarded (execute_sync_sweep sha256 line_time args candidates)
  unfolding execute_sync_sweep
  execute_sync_sweep-IsGuarded candidates m =
      let s =
        sweep_all sha256 line_time args candidates
          (start_of_sweep sha256 line_time args candidates) in
      let swept =
        sweep_all-keeps sha256 line_time args (IsGuarded-rules m) candidates
          (start_of_sweep sha256 line_time args candidates) (All-Unit candidates)
          (record { writes = tt; started = tt; ledgers = tt }) in
      if_intro IsGuarded (is_sync args.mode) (write_all sha256 line_time args s.ledgers s) s
        (λ e. write_all-IsGuarded s.ledgers s swept.ledgers swept) (λ e. swept)
