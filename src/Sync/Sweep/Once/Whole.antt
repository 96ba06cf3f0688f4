-- ===== src/Sync/Sweep/Once/Whole.antt =====
-- The whole of `executeSyncSweep` and the sessions that it starts.
use codealmanac.Prelude.{
  get_key, get_key-set_key, ℕ, ◌≡◌, refl, Option, some, List, [], ◌∷◌, Text, same_refl, All,
  if_intro,
}
use codealmanac.Sync.Ledger.{SessionCandidate, SyncLedger}
use codealmanac.Sync.Sweep.{
  SyncStarted, Seen, Sweep, add_skipped, load_session_ids, load_ledger, put_ledger, write_ledger,
}
use codealmanac.Sync.Sweep.Step.{
  SweepArgs, is_sync, on_locked, sweep_all, write_all, execute_sync_sweep, start_of_sweep,
}
use codealmanac.Sync.Sweep.Rules.{SweepRules, sweep_all-keeps}
use codealmanac.Sync.Sweep.Tracking.{Tracks-reconcile_ledger}
use codealmanac.Sync.Sweep.Once.{key_of, Distinct, IsTracked, Agrees, Once-set_key, All-zip}
use codealmanac.Sync.Sweep.Once.Round.{IsOnce, IsFair, on_transcript-IsOnce}

module _ (sha256 : List ℕ → Text) (line_time : Text → Option ℕ) (args : SweepArgs)
    (New : Text → Type 0) where
  load_ledger-Agrees :
      (seen : Seen) (c : SessionCandidate) (s : Sweep) (x : SyncStarted)
      → IsFair sha256 line_time args New seen c
      → IsTracked s.ledgers x
      → New x.job_id
      → Agrees c.repo_root (load_ledger args.now_text seen c s) x
  unfolding load_ledger
  load_ledger-Agrees seen c s x fair (ledger, at, t) new repo =
      let here : get_key c.repo_root s.ledgers ≡ some ledger = rw repo at in
      rw here (
        Tracks-reconcile_ledger args.now_text seen.jobs ledger (key_of x.candidate) x.job_id
          (fair.unfinished x.job_id new) t)

  on_locked-IsOnce :
      (seen : Seen) (c : SessionCandidate) (s : Sweep)
      → IsFair sha256 line_time args New seen c
      → IsOnce sha256 line_time args New s
      → IsOnce sha256 line_time args New (on_locked sha256 line_time args seen c s)
  unfolding on_locked put_ledger
  on_locked-IsOnce seen c s fair h =
      let ledger = load_ledger args.now_text seen c s in
      on_transcript-IsOnce sha256 line_time args New seen c ledger seen.transcript
        (put_ledger c ledger s)
        (rw (get_key-set_key c.repo_root c.repo_root ledger s.ledgers, same_refl c.repo_root)) fair
        (Once-set_key New c.repo_root ledger s.ledgers s.summary.started
          (All-zip s.summary.started (λ x t n. load_ledger-Agrees seen c s x fair t n) h.tracked
            h.fresh)
          h)

  IsOnce-rules :
      SweepRules sha256 line_time args
        (IsFair sha256 line_time args New)
        (IsOnce sha256 line_time args New)
  unfolding add_skipped load_session_ids
  IsOnce-rules = record {
    on_skip = λ reason c s h. h;
    on_ids = λ seen c s h. h;
    on_lock = λ c s e h. h;
    on_body = λ seen c s fair lock h. on_locked-IsOnce seen c s fair h;
  }

  started-write_all :
      (ledgers : List (Text × SyncLedger)) (s : Sweep)
      → (write_all sha256 line_time args ledgers s).summary.started ≡ s.summary.started
  unfolding write_all write_ledger
  started-write_all [] s = refl
  started-write_all ((repo, ledger) ∷ rest) s = started-write_all rest _

  -- If no job that the sweep starts ends before the sweep does, the sweep starts no session twice:
  -- no two started items have the same repository, agent and transcript, even if the candidates
  -- repeat.
  pub execute_sync_sweep-Distinct :
      (candidates : List (Seen × SessionCandidate))
      → All (λ x. IsFair sha256 line_time args New x.0 x.1) candidates
      → Distinct (execute_sync_sweep sha256 line_time args candidates).summary.started
  unfolding execute_sync_sweep
  execute_sync_sweep-Distinct candidates fair =
      let s =
        sweep_all sha256 line_time args candidates
          (start_of_sweep sha256 line_time args candidates) in
      let swept =
        sweep_all-keeps sha256 line_time args IsOnce-rules candidates
          (start_of_sweep sha256 line_time args candidates) fair
          (record { distinct = tt; tracked = tt; fresh = tt }) in
      if_intro (λ (r : Sweep). Distinct r.summary.started) (is_sync args.mode) _ s
        (λ e. rw (started-write_all s.ledgers s) swept.distinct) (λ e. swept.distinct)
