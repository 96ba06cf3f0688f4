-- ===== src/Sync/Sweep/Once/Round.antt =====
-- One round of `executeSyncSweep` and the sessions started so far.
use codealmanac.Prelude.{
  get_key, set_key, get_key-set_key, ℕ, false, ◌≡◌, refl, sym, Option, some, List, [], ◌∷◌, Text,
  same_refl, arith, All, All-append, All-weaken,
}
use codealmanac.Sync.Ledger.{SessionCandidate, LedgerEntry, LedgerStatus, SyncLedger}
use codealmanac.Sync.Cursor.{
  TranscriptSnapshot, snapshot_of, SyncCursorDecision, skip, attention, ready, Enqueued, enqueued,
  refused, StartResult, started, start_failed, CursorContext, evaluate_sync_cursor, enqueue_absorb,
  mark_pending, is_pending, on_started, cursor_context,
}
use codealmanac.Sync.Sweep.{
  SyncMode, sync, status, SyncStarted, TranscriptReadResult, unreadable, bytes, Seen, Sweep,
  add_skipped, add_attention, put_ledger, with_entry, write_ledger,
}
use codealmanac.Sync.Sweep.Step.{
  SweepArgs, on_enqueued, on_ready, on_decision, on_transcript, entry_for,
}
use codealmanac.Sync.Sweep.Tracking.{IsUnfinished}
use codealmanac.Sync.Sweep.Once.{
  key_of, SameSession, Distinct-snoc, IsTracked, Once, Agrees, Once-set_key, Once-Agrees,
  Tracks-with_entry_own, Tracks-with_entry_ne, All-zip,
}

-- None of the started sessions is the candidate's.
abbrev Others : SessionCandidate → List SyncStarted → Type 0
Others c xs = All (λ x. ¬ SameSession x.candidate c) xs

module _ (sha256 : List ℕ → Text) (line_time : Text → Option ℕ) (args : SweepArgs)
    (New : Text → Type 0) where
  abbrev pub IsOnce : Sweep → Type 0
  IsOnce s = Once New s.ledgers s.summary.started

  -- What the new entry must be for the job that was started.
  abbrev IsSound : Enqueued → Type 0
  IsSound (refused reason entry) = Unit
  IsSound (enqueued job_id entry) =
      (entry.status ≡ LedgerStatus.pending) × (entry.pending_job_id ≡ some job_id) × New job_id

  Agrees-ne :
      (c : SessionCandidate) (entry : LedgerEntry) (ledger : SyncLedger) (s : Sweep)
      → get_key c.repo_root s.ledgers ≡ some ledger
      → Others c s.summary.started
      → IsOnce s
      → All (Agrees c.repo_root (with_entry c entry ledger)) s.summary.started
  Agrees-ne c entry ledger s at others h =
      All-zip s.summary.started
        (λ x apart agrees e.
          Tracks-with_entry_ne c entry ledger (key_of x.candidate) x.job_id
            (λ k. apart (sym e, sym k)) (agrees e))
        others (Once-Agrees New c.repo_root ledger s.ledgers s.summary.started at h)

  stamped-Agrees :
      (repo : Text) (ledger : SyncLedger) (now : Text) (xs : List SyncStarted)
      → All (Agrees repo ledger) xs
      → All (Agrees repo (record ledger { updated_at = now })) xs
  stamped-Agrees repo ledger now xs h =
      All-weaken xs
        (λ x agrees e.
          let t = agrees e in
          record { entry = t.entry; found = t.found; pending = t.pending; job = t.job })
        h

  on_enqueued-IsOnce :
      (c : SessionCandidate) (from_line to_line : ℕ) (ledger : SyncLedger) (e : Enqueued)
      (s : Sweep)
      → get_key c.repo_root s.ledgers ≡ some ledger
      → Others c s.summary.started
      → IsSound e
      → IsOnce s
      → IsOnce (on_enqueued sha256 line_time args c from_line to_line ledger e s)
  unfolding on_enqueued write_ledger add_attention
  on_enqueued-IsOnce c from_line to_line ledger (refused reason entry) s at others sound h =
      Once-set_key New c.repo_root _ s.ledgers s.summary.started
        (stamped-Agrees c.repo_root (with_entry c entry ledger) args.now_text s.summary.started
          (Agrees-ne c entry ledger s at others h))
        h
  on_enqueued-IsOnce c from_line to_line ledger (enqueued job_id entry) s at others (p, j, new) h =
      let stamped = record (with_entry c entry ledger) { updated_at = args.now_text } in
      let kept =
        Once-set_key New c.repo_root stamped s.ledgers s.summary.started
          (stamped-Agrees c.repo_root (with_entry c entry ledger) args.now_text s.summary.started
            (Agrees-ne c entry ledger s at others h))
          h in
      let item : SyncStarted = record {
        candidate = c;
        job_id = job_id;
        from_line = from_line;
        to_line = to_line;
      } in
      let in_cache : get_key c.repo_root (set_key c.repo_root stamped s.ledgers) ≡ some stamped =
        rw (get_key-set_key c.repo_root c.repo_root stamped s.ledgers, same_refl c.repo_root) in
      let in_ledger : get_key (key_of c) stamped.sessions ≡ some entry =
        rw (get_key-set_key (key_of c) (key_of c) entry ledger.sessions, same_refl (key_of c)) in
      let item_tracked : IsTracked (set_key c.repo_root stamped s.ledgers) item =
        (stamped, in_cache, record { entry = entry; found = in_ledger; pending = p; job = j }) in
      record {
        distinct = Distinct-snoc s.summary.started item kept.distinct others;
        tracked =
            All-append (IsTracked (set_key c.repo_root stamped s.ledgers)) s.summary.started
              (item ∷ []) kept.tracked (item_tracked, tt);
        fresh = All-append (λ x. New x.job_id) s.summary.started (item ∷ []) kept.fresh (new, tt);
      }

  on_started-IsSound :
      (now : Text) (entry : LedgerEntry) (snapshot : TranscriptSnapshot) (r : StartResult)
      → ((job_id : Text) → r ≡ started job_id → New job_id)
      → IsSound (on_started sha256 now entry snapshot r)
  unfolding on_started mark_pending
  on_started-IsSound now entry snapshot (start_failed error) fair = tt
  on_started-IsSound now entry snapshot (started job_id) fair = (refl, refl, fair job_id refl)

  -- What is assumed of the world: no job that the sweep starts ends before the sweep does, and
  -- `New` holds of every job that `startAbsorb` returns.
  pub record IsFair (seen : Seen) (c : SessionCandidate) : Type 0 where
    pub unfinished : (job_id : Text) → New job_id → IsUnfinished (seen.jobs job_id)
    pub new :
        (context : CursorContext) (job_id : Text) → seen.start context ≡ started job_id → New job_id

  on_ready-IsOnce :
      (mode : SyncMode) (seen : Seen) (c : SessionCandidate) (ledger : SyncLedger)
      (entry : LedgerEntry) (snapshot : TranscriptSnapshot) (from_line to_line : ℕ) (s : Sweep)
      → get_key c.repo_root s.ledgers ≡ some ledger
      → Others c s.summary.started
      → IsFair seen c
      → IsOnce s
      → IsOnce
          (on_ready sha256 line_time args mode seen c ledger entry snapshot from_line to_line s)
  unfolding on_ready enqueue_absorb
  on_ready-IsOnce status seen c ledger entry snapshot from_line to_line s at others fair h = h
  on_ready-IsOnce sync seen c ledger entry snapshot from_line to_line s at others fair h =
      on_enqueued-IsOnce c from_line to_line ledger _ _ at others
        (on_started-IsSound args.now_text entry snapshot _
          (fair.new (cursor_context entry from_line)))
        h

  -- The candidate's entry is the ledger's own, if the ledger has one.
  abbrev IsOwn : SessionCandidate → LedgerEntry → SyncLedger → Type 0
  IsOwn c entry ledger = (e : LedgerEntry) → get_key (key_of c) ledger.sessions ≡ some e → entry ≡ e

  Others-of_not_pending :
      (c : SessionCandidate) (entry : LedgerEntry) (ledger : SyncLedger) (s : Sweep)
      → IsOwn c entry ledger
      → is_pending entry.status ≡ false
      → get_key c.repo_root s.ledgers ≡ some ledger
      → IsOnce s
      → Others c s.summary.started
  Others-of_not_pending c entry ledger s own free at h =
      All-weaken s.summary.started apart
        (Once-Agrees New c.repo_root ledger s.ledgers s.summary.started at h)
    where
      apart : (x : SyncStarted) → Agrees c.repo_root ledger x → ¬ SameSession x.candidate c
      apart x agrees (repo, key) =
          let t = agrees (sym repo) in
          let e : entry ≡ t.entry = own t.entry (rw (sym key) t.found) in cc (free, e, t.pending)

  with_own-Agrees :
      (c : SessionCandidate) (entry : LedgerEntry) (ledger : SyncLedger) (s : Sweep)
      → IsOwn c entry ledger
      → get_key c.repo_root s.ledgers ≡ some ledger
      → IsOnce s
      → All (Agrees c.repo_root (with_entry c entry ledger)) s.summary.started
  with_own-Agrees c entry ledger s own at h =
      All-weaken s.summary.started
        (λ x agrees e.
          Tracks-with_entry_own c entry ledger (key_of x.candidate) x.job_id own (agrees e))
        (Once-Agrees New c.repo_root ledger s.ledgers s.summary.started at h)

  put_own-IsOnce :
      (c : SessionCandidate) (entry : LedgerEntry) (ledger : SyncLedger) (s : Sweep)
      → IsOwn c entry ledger
      → get_key c.repo_root s.ledgers ≡ some ledger
      → IsOnce s
      → Once New (set_key c.repo_root (with_entry c entry ledger) s.ledgers) s.summary.started
  put_own-IsOnce c entry ledger s own at h =
      Once-set_key New c.repo_root (with_entry c entry ledger) s.ledgers s.summary.started
        (with_own-Agrees c entry ledger s own at h) h

  on_decision-IsOnce :
      (seen : Seen) (c : SessionCandidate) (ledger : SyncLedger) (entry : LedgerEntry)
      (snapshot : TranscriptSnapshot) (d : SyncCursorDecision) (s : Sweep)
      → evaluate_sync_cursor sha256 entry snapshot ≡ d
      → IsOwn c entry ledger
      → get_key c.repo_root s.ledgers ≡ some ledger
      → IsFair seen c
      → IsOnce s
      → IsOnce (on_decision sha256 line_time args seen c ledger entry snapshot d s)
  unfolding on_decision add_skipped add_attention put_ledger evaluate_sync_cursor
  on_decision-IsOnce seen c ledger entry snapshot (skip reason) s e own at fair h =
      put_own-IsOnce c entry ledger s own at h
  on_decision-IsOnce seen c ledger entry snapshot (attention reason marked) s e own at fair h =
      let free : is_pending entry.status ≡ false = ground arith in
      Once-set_key New c.repo_root (with_entry c marked ledger) s.ledgers s.summary.started
        (Agrees-ne c marked ledger s at (Others-of_not_pending c entry ledger s own free at h) h) h
  on_decision-IsOnce seen c ledger entry snapshot (ready from_line to_line) s e own at fair h =
      let free : is_pending entry.status ≡ false = ground arith in
      on_ready-IsOnce args.mode seen c (with_entry c entry ledger) entry snapshot from_line to_line
        (put_ledger c (with_entry c entry ledger) s)
        (rw (
          get_key-set_key c.repo_root c.repo_root (with_entry c entry ledger) s.ledgers,
          same_refl c.repo_root,
        ))
        (Others-of_not_pending c entry ledger s own free at h) fair
        (put_own-IsOnce c entry ledger s own at h)

  pub on_transcript-IsOnce :
      (seen : Seen) (c : SessionCandidate) (ledger : SyncLedger) (t : TranscriptReadResult)
      (s : Sweep)
      → get_key c.repo_root s.ledgers ≡ some ledger
      → IsFair seen c
      → IsOnce s
      → IsOnce (on_transcript sha256 line_time args seen c ledger t s)
  unfolding on_transcript add_attention
  on_transcript-IsOnce seen c ledger (unreadable message) s at fair h = h
  on_transcript-IsOnce seen c ledger (bytes content) s at fair h =
      on_decision-IsOnce seen c ledger (entry_for sha256 line_time args c content ledger)
        (snapshot_of content) _ s refl own at fair h
    where
      own : IsOwn c (entry_for sha256 line_time args c content ledger) ledger
      own e found = unfold entry_for in rw found
