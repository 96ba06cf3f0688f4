-- ===== src/Sync/Sweep/Once.antt =====
-- The sessions that `executeSyncSweep` starts, and when two are the same.
pub mod Round
pub mod Whole
use codealmanac.Prelude.{
  get_key, set_key, get_key-set_key, ℕ, ◌+◌, Bool, true, false, ◌≡◌, ◌≢◌, refl, sym, ap, ◌∙◌, subst,
  Option, none, some, List, [], ◌∷◌, ◌++◌, Text, same, same_iff, same_refl, same_sound, arith,
  if◌then◌else◌, Bool-cases, Option-cases, inl, inr, or_else, All, All-append, All-weaken, In,
  if_intro,
}
use codealmanac.Sync.Ledger.{
  SessionCandidate, LedgerEntry, LedgerStatus, SyncLedger, ledger_key, fresh_ledger_entry,
}
use codealmanac.Sync.Cursor.{
  TranscriptSnapshot, snapshot_of, SyncCursorDecision, skip, attention, ready, Enqueued, enqueued,
  refused, Reason, StartResult, CursorContext, evaluate_sync_cursor, enqueue_absorb, mark_pending,
  is_pending,
}
use codealmanac.Sync.Sweep.{
  SyncMode, sync, status, SyncStarted, TranscriptReadResult, unreadable, bytes, Seen, Sweep,
  add_skipped, add_attention, load_session_ids, load_ledger, put_ledger, with_entry, write_ledger,
}
use codealmanac.Sync.Sweep.Step.{
  SweepArgs, is_sync, on_enqueued, on_ready, on_decision, on_transcript, on_locked, entry_for,
  sweep_all, write_all, execute_sync_sweep, start_of_sweep,
}
use codealmanac.Sync.Sweep.Rules.{SweepRules, HasLock, sweep_all-keeps}
use codealmanac.Sync.Sweep.Tracking.{Tracks, Tracks-reconcile_ledger, IsUnfinished}

abbrev pub key_of : SessionCandidate → Text
key_of c = ledger_key c.app c.transcript_path

-- The same transcript of the same agent in the same repository.
abbrev pub SameSession : SessionCandidate → SessionCandidate → Type 0
SameSession c d = (c.repo_root ≡ d.repo_root) × (key_of c ≡ key_of d)

abbrev pub Distinct : List SyncStarted → Type 0
Distinct [] = Unit
Distinct (x ∷ xs) = All (λ y. ¬ SameSession x.candidate y.candidate) xs × Distinct xs

pub Distinct-snoc :
    (xs : List SyncStarted) (y : SyncStarted)
    → Distinct xs
    → All (λ x. ¬ SameSession x.candidate y.candidate) xs
    → Distinct (xs ++ y ∷ [])
Distinct-snoc [] y h k = (tt, tt)
Distinct-snoc (x ∷ xs) y (h, hs) (k, ks) = (
  All-append (λ z. ¬ SameSession x.candidate z.candidate) xs (y ∷ []) h (k, tt),
  Distinct-snoc xs y hs ks,
)

abbrev pub Ledgers : Type 0
Ledgers = List (Text × SyncLedger)

-- The sweep's ledger of the repository has the started session pending.
abbrev pub IsTracked : Ledgers → SyncStarted → Type 0
IsTracked ledgers x =
    (ledger : SyncLedger) × (get_key x.candidate.repo_root ledgers ≡ some ledger)
    × Tracks ledger (key_of x.candidate) x.job_id

-- `New` holds of the jobs that the sweep starts.
pub record Once (New : Text → Type 0) (ledgers : Ledgers) (started : List SyncStarted)
    : Type 0 where
  pub distinct : Distinct started
  pub tracked : All (IsTracked ledgers) started
  pub fresh : All (λ x. New x.job_id) started

abbrev pub Agrees : Text → SyncLedger → SyncStarted → Type 0
Agrees repo ledger x = repo ≡ x.candidate.repo_root → Tracks ledger (key_of x.candidate) x.job_id

IsTracked-set_key :
    (repo : Text) (ledger : SyncLedger) (ledgers : Ledgers) (x : SyncStarted)
    → Agrees repo ledger x
    → IsTracked ledgers x
    → IsTracked (set_key repo ledger ledgers) x
IsTracked-set_key repo ledger ledgers x agrees (old, at, t) =
    elim (Bool-cases (same repo x.candidate.repo_root)) [
      | inl e ↦ (
        ledger,
        rw (get_key-set_key repo x.candidate.repo_root ledger ledgers, e),
        agrees (same_sound repo x.candidate.repo_root e),
      )
      | inr n ↦ (old, rw (get_key-set_key repo x.candidate.repo_root ledger ledgers, n) at, t)
    ]

pub All-zip :
    {P Q R : SyncStarted → Type 0} (xs : List SyncStarted)
    → ((x : SyncStarted) → P x → Q x → R x)
    → All P xs
    → All Q xs
    → All R xs
All-zip [] f h k = tt
All-zip (x ∷ xs) f (p, h) (q, k) = (f x p q, All-zip xs f h k)

module _ (New : Text → Type 0) where
  pub Once-set_key :
      (repo : Text) (ledger : SyncLedger) (ledgers : Ledgers) (started : List SyncStarted)
      → All (Agrees repo ledger) started
      → Once New ledgers started
      → Once New (set_key repo ledger ledgers) started
  Once-set_key repo ledger ledgers started agrees h = record {
    distinct = h.distinct;
    tracked = All-zip started (IsTracked-set_key repo ledger ledgers) agrees h.tracked;
    fresh = h.fresh;
  }

  pub Once-Agrees :
      (repo : Text) (ledger : SyncLedger) (ledgers : Ledgers) (started : List SyncStarted)
      → get_key repo ledgers ≡ some ledger
      → Once New ledgers started
      → All (Agrees repo ledger) started
  Once-Agrees repo ledger ledgers started at h = All-weaken started each h.tracked
    where
      each : (x : SyncStarted) → IsTracked ledgers x → Agrees repo ledger x
      each x (l, found, t) e =
          let same_ledger : l ≡ ledger = cc (found, at, e) in
          subst (λ y. Tracks y (key_of x.candidate) x.job_id) same_ledger t

-- Setting the candidate's entry keeps what the ledger tracks, if the entry is the ledger's own, or
-- the tracked session is another.
pub Tracks-with_entry_own :
    (c : SessionCandidate) (entry : LedgerEntry) (ledger : SyncLedger) (key job_id : Text)
    → ((e : LedgerEntry) → get_key (key_of c) ledger.sessions ≡ some e → entry ≡ e)
    → Tracks ledger key job_id
    → Tracks (with_entry c entry ledger) key job_id
Tracks-with_entry_own c entry ledger key job_id own t = record {
  entry = t.entry;
  found = rw (get_key-set_key (key_of c) key entry ledger.sessions) (
      if_intro (λ o. o ≡ some t.entry) (same (key_of c) key) _ _
        (λ e. ap some (own t.entry (rw (same_sound (key_of c) key e) t.found))) (λ n. t.found));
  pending = t.pending;
  job = t.job;
}

pub Tracks-with_entry_ne :
    (c : SessionCandidate) (entry : LedgerEntry) (ledger : SyncLedger) (key job_id : Text)
    → key_of c ≢ key
    → Tracks ledger key job_id
    → Tracks (with_entry c entry ledger) key job_id
Tracks-with_entry_ne c entry ledger key job_id ne t = record {
  entry = t.entry;
  found = rw (get_key-set_key (key_of c) key entry ledger.sessions) (
      if_intro (λ o. o ≡ some t.entry) (same (key_of c) key) _ _
        (λ e. absurd (ne (same_sound (key_of c) key e))) (λ n. t.found));
  pending = t.pending;
  job = t.job;
}
