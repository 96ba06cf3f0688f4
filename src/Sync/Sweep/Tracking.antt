-- ===== src/Sync/Sweep/Tracking.antt =====
-- A session whose job has not ended stays pending in its ledger.
use mathlib.Core.Option
use codealmanac.Prelude.{get_key, false, ◌≡◌, refl, Option, none, some, [], ◌∷◌, Text, arith}
use codealmanac.Jobs.Record.{JobRecord, is_final}
use codealmanac.Sync.Ledger.{LedgerEntry, LedgerStatus, SyncLedger, Sessions}
use codealmanac.Sync.Ledger.Reconcile.{reconcile_entry, reconcile_sessions, reconcile_ledger}

get_key-reconcile_sessions :
    (now : Text) (jobs : Text → Option JobRecord) (key : Text) (sessions : Sessions)
    → get_key key (reconcile_sessions now jobs sessions)
      ≡ Option.map (reconcile_entry now jobs) (get_key key sessions)
unfolding get_key reconcile_sessions
get_key-reconcile_sessions now jobs key [] = refl
get_key-reconcile_sessions now jobs key ((k, entry) ∷ rest) =
    ground (arith, get_key-reconcile_sessions now jobs key rest)

-- The ledger has the session pending for the job.
pub record Tracks (ledger : SyncLedger) (key job_id : Text) : Type 0 where
  pub entry : LedgerEntry
  pub found : get_key key ledger.sessions ≡ some entry
  pub pending : entry.status ≡ LedgerStatus.pending
  pub job : entry.pending_job_id ≡ some job_id

-- The job has no record yet, or one with no final status.
abbrev pub IsUnfinished : Option JobRecord → Type 0
IsUnfinished none = Unit
IsUnfinished (some job) = is_final job.status ≡ false

reconcile_entry_unfinished :
    (now : Text) (jobs : Text → Option JobRecord) (entry : LedgerEntry) (job_id : Text)
    → entry.status ≡ LedgerStatus.pending
    → entry.pending_job_id ≡ some job_id
    → IsUnfinished (jobs job_id)
    → reconcile_entry now jobs entry ≡ entry
unfolding reconcile_entry is_final
reconcile_entry_unfinished now jobs entry job_id p j u = ground arith

pub Tracks-reconcile_ledger :
    (now : Text) (jobs : Text → Option JobRecord) (ledger : SyncLedger) (key job_id : Text)
    → IsUnfinished (jobs job_id)
    → Tracks ledger key job_id
    → Tracks (reconcile_ledger now jobs ledger) key job_id
unfolding reconcile_ledger
Tracks-reconcile_ledger now jobs ledger key job_id u t = record {
  entry = t.entry;
  found = rw (
    get_key-reconcile_sessions now jobs key ledger.sessions,
    t.found,
    reconcile_entry_unfinished now jobs t.entry job_id t.pending t.job u,
  );
  pending = t.pending;
  job = t.job;
}
