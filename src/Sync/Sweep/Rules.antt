-- ===== src/Sync/Sweep/Rules.antt =====
-- An invariant of the sweep, from what each branch of its loop's body does.
use codealmanac.Prelude.{
  true, not, ◌&&◌, ◌≡◌, Option, List, [], ◌∷◌, Text, ℕ, contains, contains_head, if_intro, arith,
  inl, inr, Option-cases, All,
}
use codealmanac.Sync.Ledger.{SessionCandidate}
use codealmanac.Sync.Cursor.{Reason, internal_almanac_session, sync_already_running}
use codealmanac.Sync.Sweep.{
  Seen, Sweep, add_skipped, candidate_eligibility, load_session_ids, is_internal,
}
use codealmanac.Sync.Sweep.Step.{
  SweepArgs, is_sync, on_locked, take_lock, on_eligible, sweep_candidate, sweep_all,
}

module _ (sha256 : List ℕ → Text) (line_time : Text → Option ℕ) (args : SweepArgs) where
  -- In a sync, the lock of the candidate's repository is held.
  abbrev pub HasLock : SessionCandidate → Sweep → Type 0
  HasLock c s = is_sync args.mode ≡ true → contains c.repo_root s.held_locks ≡ true

  -- `Fair` is what is assumed of the answers of the world, `P` what is kept.
  pub record SweepRules (Fair : Seen → SessionCandidate → Type 0) (P : Sweep → Type 0)
      : Type 0 where
    pub on_skip :
        (reason : Reason) (c : SessionCandidate) (s : Sweep) → P s → P (add_skipped reason c s)
    pub on_ids :
        (seen : Seen) (c : SessionCandidate) (s : Sweep) → P s → P (load_session_ids seen c s)
    pub on_lock :
        (c : SessionCandidate) (s : Sweep)
        → is_sync args.mode ≡ true
        → P s
        → P (record s { held_locks = c.repo_root ∷ s.held_locks })
    pub on_body :
        (seen : Seen) (c : SessionCandidate) (s : Sweep)
        → Fair seen c
        → HasLock c s
        → P s
        → P (on_locked sha256 line_time args seen c s)

  module _ {Fair : Seen → SessionCandidate → Type 0} {P : Sweep → Type 0}
      (rules : SweepRules Fair P) where
    take_lock-keeps :
        (seen : Seen) (c : SessionCandidate) (s : Sweep)
        → Fair seen c
        → P s
        → P (take_lock sha256 line_time args seen c s)
    unfolding take_lock
    take_lock-keeps seen c s fair h =
        let locked = record s { held_locks = c.repo_root ∷ s.held_locks } in
        if_intro P (is_sync args.mode && not (contains c.repo_root s.held_locks)) _ _
          (λ want.
            if_intro P seen.lock_free _ _
              (λ free.
                rules.on_body seen c locked fair (λ e. contains_head c.repo_root s.held_locks)
                  (rules.on_lock c s (ground arith) h))
              (λ busy. rules.on_skip sync_already_running c s h))
          (λ held. rules.on_body seen c s fair (λ e. ground arith) h)

    on_eligible-keeps :
        (seen : Seen) (c : SessionCandidate) (s : Sweep)
        → Fair seen c
        → P s
        → P (on_eligible sha256 line_time args seen c s)
    unfolding on_eligible
    on_eligible-keeps seen c s fair h =
        let known = load_session_ids seen c s in
        if_intro P (is_internal c known) _ _
          (λ own. rules.on_skip internal_almanac_session c known (rules.on_ids seen c s h))
          (λ other. take_lock-keeps seen c known fair (rules.on_ids seen c s h))

    sweep_candidate-keeps :
        (seen : Seen) (c : SessionCandidate) (s : Sweep)
        → Fair seen c
        → P s
        → P (sweep_candidate sha256 line_time args seen c s)
    sweep_candidate-keeps seen c s fair h =
        elim (Option-cases (candidate_eligibility args.sync_since args.quiet_ms args.now c)) [
          | inr (reason, e) ↦
              unfold sweep_candidate in rw (e, sweep_candidate) (rules.on_skip reason c s h)
          | inl e ↦
              unfold sweep_candidate in rw (e, sweep_candidate) (on_eligible-keeps seen c s fair h)
        ]

    pub sweep_all-keeps :
        (candidates : List (Seen × SessionCandidate)) (s : Sweep)
        → All (λ x. Fair x.0 x.1) candidates
        → P s
        → P (sweep_all sha256 line_time args candidates s)
    unfolding sweep_all
    sweep_all-keeps [] s fair h = h
    sweep_all-keeps ((seen, c) ∷ rest) s (fair, fairs) h =
        sweep_all-keeps rest (sweep_candidate sha256 line_time args seen c s) fairs
          (sweep_candidate-keeps seen c s fair h)
