-- ===== src/Sync/Ledger/Disk.antt =====
-- The ledger's file (`normalizeLedger` in sync/ledger.ts), on the values that `JSON.parse` gives.
pub mod RoundTrip
mod Tests
use codealmanac.Prelude.{
  ℕ, Bool, true, false, Option, none, some, List, [], ◌∷◌, map, Text, codes, same, or_next,
  if◌then◌else◌,
}
use codealmanac.Sync.Ledger.{
  SweepApp, claude, codex, LedgerStatus, LedgerEntry, Sessions, SyncLedger,
}

-- A number is a natural one; a key that is missing stands as `other`.
pub data Value : Type 0 where
  other : Value
  text : Text → Value
  number : ℕ → Value

-- The last fields have the names of older versions.
pub record RawFields : Type 0 where
  pub app : Value
  pub session_id : Value
  pub transcript_path : Value
  pub status : Value
  pub last_absorbed_size : Value
  pub last_absorbed_line : Value
  pub last_absorbed_prefix_hash : Value
  pub last_absorbed_at : Value
  pub last_job_id : Value
  pub pending_to_size : Value
  pub pending_to_line : Value
  pub pending_prefix_hash : Value
  pub pending_job_id : Value
  pub pending_started_at : Value
  pub last_error : Value
  pub last_captured_size : Value
  pub last_captured_line : Value
  pub last_captured_prefix_hash : Value
  pub last_captured_at : Value
  pub pending_run_id : Value

pub data RawEntry : Type 0 where
  no_object : RawEntry
  fields : RawFields → RawEntry

pub data RawSessions : Type 0 where
  no_mapping : RawSessions
  mapping : List (Text × RawEntry) → RawSessions

-- `version` says that it is 1.
pub data Document : Type 0 where
  no_document : Document
  document : Bool → Value → RawSessions → Document

unfoldable pub string_value : Value → Option Text
string_value (text []) = none
string_value (text (c ∷ s)) = some (c ∷ s)
string_value _ = none

unfoldable pub number_value : Value → Option ℕ
number_value (number n) = some n
number_value _ = none

unfoldable pub app_of : Value → Option SweepApp
app_of (text s) =
    if same s (codes "claude")
    then some claude
    else if same s (codes "codex")
    then some codex
    else none
app_of _ = none

unfoldable pub ledger_status : Value → Option LedgerStatus
ledger_status (text s) =
    if same s (codes "done")
    then some LedgerStatus.done
    else if same s (codes "pending")
    then some LedgerStatus.pending
    else if same s (codes "failed")
    then some LedgerStatus.failed
    else if same s (codes "needs_attention")
    then some LedgerStatus.needs_attention
    else none
ledger_status _ = none

infixl 5 ◌>>=◌
abbrev pub ◌>>=◌ : {A B : Type 0} → Option A → (A → Option B) → Option B
none >>= f = none
some a >>= f = f a

unfoldable pub normalize_fields : RawFields → Option LedgerEntry
unfolding string_value number_value app_of ledger_status
normalize_fields raw = do
  app ← app_of raw.app
  session_id ← string_value raw.session_id
  transcript_path ← string_value raw.transcript_path
  status ← ledger_status raw.status
  size ← or_next (number_value raw.last_absorbed_size) (number_value raw.last_captured_size)
  line ← or_next (number_value raw.last_absorbed_line) (number_value raw.last_captured_line)
  hash ←
      or_next (string_value raw.last_absorbed_prefix_hash)
        (string_value raw.last_captured_prefix_hash)
  some (record {
    app = app;
    session_id = session_id;
    transcript_path = transcript_path;
    status = status;
    last_absorbed_size = size;
    last_absorbed_line = line;
    last_absorbed_prefix_hash = hash;
    last_absorbed_at =
        or_next (string_value raw.last_absorbed_at) (string_value raw.last_captured_at);
    last_job_id = string_value raw.last_job_id;
    pending_to_size = number_value raw.pending_to_size;
    pending_to_line = number_value raw.pending_to_line;
    pending_prefix_hash = string_value raw.pending_prefix_hash;
    pending_job_id = or_next (string_value raw.pending_job_id) (string_value raw.pending_run_id);
    pending_started_at = string_value raw.pending_started_at;
    last_error = string_value raw.last_error;
  })

unfoldable pub normalize_ledger_entry : RawEntry → Option LedgerEntry
unfolding normalize_fields
normalize_ledger_entry no_object = none
normalize_ledger_entry (fields raw) = normalize_fields raw

abbrev pub put_entry : Option LedgerEntry → Text → Sessions → Sessions
put_entry none key sessions = sessions
put_entry (some entry) key sessions = (key, entry) ∷ sessions

-- Entries that cannot be read are left out.
unfoldable pub normalize_sessions : List (Text × RawEntry) → Sessions
unfolding normalize_ledger_entry
normalize_sessions [] = []
normalize_sessions ((key, raw) ∷ rest) =
    put_entry (normalize_ledger_entry raw) key (normalize_sessions rest)

unfoldable pub normalize_ledger : Document → Option SyncLedger
unfolding normalize_sessions
normalize_ledger (document true (text t) (mapping raw)) =
    some (record { updated_at = t; sessions = normalize_sessions raw })
normalize_ledger _ = none

abbrev pub app_text : SweepApp → Text
app_text claude = codes "claude"
app_text codex = codes "codex"

abbrev pub ledger_status_text : LedgerStatus → Text
ledger_status_text LedgerStatus.done = codes "done"
ledger_status_text LedgerStatus.pending = codes "pending"
ledger_status_text LedgerStatus.failed = codes "failed"
ledger_status_text LedgerStatus.needs_attention = codes "needs_attention"

abbrev pub value_or_missing : {A : Type 0} → (A → Value) → Option A → Value
value_or_missing make none = other
value_or_missing make (some a) = make a

unfoldable pub dump_fields : LedgerEntry → RawFields
dump_fields e = record {
  app = text (app_text e.app);
  session_id = text e.session_id;
  transcript_path = text e.transcript_path;
  status = text (ledger_status_text e.status);
  last_absorbed_size = number e.last_absorbed_size;
  last_absorbed_line = number e.last_absorbed_line;
  last_absorbed_prefix_hash = text e.last_absorbed_prefix_hash;
  last_absorbed_at = value_or_missing text e.last_absorbed_at;
  last_job_id = value_or_missing text e.last_job_id;
  pending_to_size = value_or_missing number e.pending_to_size;
  pending_to_line = value_or_missing number e.pending_to_line;
  pending_prefix_hash = value_or_missing text e.pending_prefix_hash;
  pending_job_id = value_or_missing text e.pending_job_id;
  pending_started_at = value_or_missing text e.pending_started_at;
  last_error = value_or_missing text e.last_error;
  last_captured_size = other;
  last_captured_line = other;
  last_captured_prefix_hash = other;
  last_captured_at = other;
  pending_run_id = other;
}

abbrev pub dump_session : Text × LedgerEntry → Text × RawEntry
dump_session (key, entry) = (key, fields (dump_fields entry))

-- `writeLedger` at `now`, as `toISOString` prints it.
unfoldable pub dump_ledger : SyncLedger → Text → Document
unfolding dump_fields
dump_ledger ledger now = document true (text now) (mapping (map dump_session ledger.sessions))
