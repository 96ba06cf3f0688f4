-- ===== src/Sync/Tests.antt =====
-- A sweep, and the laws of the sync at concrete inputs.
use codealmanac.Prelude.{
  get_key, set_key, ℕ, ◌+◌, true, ◌≡◌, ◌≢◌, refl, Option, none, some, List, [], ◌∷◌, ◌++◌, Text,
  codes, ◌==◌, if◌then◌else◌, arith, length, same, contains,
}
use codealmanac.Jobs.Record.{JobRecord, JobStatus}
use codealmanac.Sync.Ledger.{
  SweepApp, SessionCandidate, LedgerEntry, LedgerStatus, SyncLedger, fresh_ledger_entry,
  initial_ledger_cursor, count_lines, ledger_key, sync_cursor,
}
use codealmanac.Sync.Utf8.{encode_utf8, decode_utf8}
use codealmanac.Sync.Utf8.Laws.{IsUtf8}
use codealmanac.Sync.Cursor.{
  snapshot_of, skip, attention, ready, unchanged, StartResult, prefix_mismatch,
  evaluate_sync_cursor, enqueue_absorb, on_started, mark_pending,
}
use codealmanac.Sync.Ledger.Reconcile.{
  reconcile_ledger, reconcile_sessions, reconcile_entry, settle,
}
use codealmanac.Sync.Cursor.Progress.{absorbed, evaluate_sync_cursor-absorbed}
use codealmanac.Sync.Cursor.Initial.{
  StandsIn, initial_ledger_cursor-StandsIn, fresh_ledger_entry-matches,
}
use codealmanac.Sync.Sweep.{
  SyncMode, bytes, Seen, Sweep, candidate_eligibility, is_internal, load_session_ids, load_ledger,
  put_ledger, write_ledger, add_skipped,
}
use codealmanac.Sync.Sweep.Step.{
  SweepArgs, execute_sync_sweep, write_all, sweep_all, sweep_candidate, on_eligible, take_lock,
  on_locked, on_transcript, on_decision, on_ready, on_enqueued, entry_for,
}
use codealmanac.Sync.Sweep.Counts.{outcomes, execute_sync_sweep-outcomes}
use codealmanac.Sync.Sweep.Modes.{IsReadOnly, execute_sync_sweep-IsReadOnly}
use codealmanac.Sync.Sweep.Guarded.{IsGuarded, execute_sync_sweep-IsGuarded}
use codealmanac.Sync.Sweep.Once.{Distinct}
use codealmanac.Sync.Sweep.Once.Round.{IsFair}
use codealmanac.Sync.Sweep.Once.Whole.{execute_sync_sweep-Distinct}

-- A hash without collisions, and a transcript without times.
abbrev plain_hash : List ℕ → Text
plain_hash content = content

abbrev no_time : List ℕ → Option ℕ
no_time line = none

abbrev session : SessionCandidate
session = record {
  app = SweepApp.claude;
  session_id = codes "s1";
  transcript_path = codes "/t/s1.jsonl";
  cwd = codes "/repo";
  repo_root = codes "/repo";
  mtime_ms = 1000;
  size_bytes = 4;
}

-- Two lines.
abbrev transcript : List ℕ
transcript = b'a' ∷ 10 ∷ b'b' ∷ 10 ∷ []

abbrev empty_ledger : SyncLedger
empty_ledger = record { updated_at = codes "1970-01-01T00:00:00.000Z"; sessions = [] }

abbrev quiet_world : Seen
quiet_world = record {
  lock_free = true;
  job_sessions = [];
  stored = empty_ledger;
  jobs = λ id. none;
  transcript = bytes transcript;
  start = λ context. StartResult.started (codes "job_1");
}

abbrev args_of : SyncMode → SweepArgs
args_of mode = record {
  sync_since = none;
  quiet_ms = 500;
  mode = mode;
  now = 2000;
  now_text = codes "1970-01-01T00:00:02.000Z";
}

-- The same session twice: the second is skipped.
abbrev twice : List (Seen × SessionCandidate)
twice = (quiet_world, session) ∷ (quiet_world, session) ∷ []

abbrev swept : SyncMode → Sweep
swept mode = execute_sync_sweep plain_hash no_time (args_of mode) twice

-- How many sessions are started, how many skipped and how many ledgers written.
abbrev counts : Sweep → ℕ × ℕ × ℕ
counts s = (length s.summary.started, length s.summary.skipped, length s.writes)

one_of_two_starts : counts (swept SyncMode.sync) ≡ (1, 1, 2)
unfolding execute_sync_sweep write_all sweep_all sweep_candidate candidate_eligibility on_eligible
    is_internal load_session_ids same take_lock on_locked on_transcript on_decision on_ready
    on_enqueued entry_for evaluate_sync_cursor enqueue_absorb on_started mark_pending snapshot_of
    count_lines sync_cursor fresh_ledger_entry initial_ledger_cursor ledger_key get_key set_key
    load_ledger reconcile_ledger reconcile_sessions reconcile_entry settle put_ledger write_ledger
    add_skipped contains
one_of_two_starts = refl

abbrev fresh_entry : LedgerEntry
fresh_entry = fresh_ledger_entry plain_hash no_time session transcript none

abbrev done_job : JobRecord
done_job = record {
  id = codes "job_1";
  operation = codes "absorb";
  status = JobStatus.done;
  repo_root = codes "/repo";
  pid = 7;
  provider = codes "claude";
  model = none;
  provider_session_id = none;
  started_at = some 2000;
  finished_at = some 2500;
  duration_ms = some 500;
  log_path = codes "job_1.log";
  target_kind = none;
  target_paths = none;
  summary = none;
  page_changes = none;
  operation_output = none;
  error = none;
  failure = none;
}

abbrev jobs_done : Text → Option JobRecord
jobs_done id = some done_job

evaluate_sync_cursor-absorbed_example :
    (evaluate_sync_cursor plain_hash
        (absorbed plain_hash
          (codes "2026")
          (codes "2027")
          fresh_entry
          transcript
          (codes "job_1")
          jobs_done)
        (snapshot_of transcript)
      ≡ skip unchanged)
    × (evaluate_sync_cursor plain_hash
          (absorbed plain_hash
            (codes "2026")
            (codes "2027")
            fresh_entry
            transcript
            (codes "job_1")
            jobs_done)
          (snapshot_of (transcript ++ b'c' ∷ []))
        ≡ ready (count_lines transcript + 1) (count_lines (transcript ++ b'c' ∷ [])))
evaluate_sync_cursor-absorbed_example =
    evaluate_sync_cursor-absorbed plain_hash (codes "2026") (codes "2027") fresh_entry transcript
      (b'c' ∷ []) (codes "job_1") jobs_done done_job refl refl (omega arith)

-- The time of a line is its first byte.
abbrev time_of : List ℕ → Option ℕ
time_of [] = none
time_of (c ∷ s) = some c

transcript-IsUtf8 : IsUtf8 transcript
unfolding encode_utf8 decode_utf8
transcript-IsUtf8 = refl

initial_ledger_cursor-StandsIn_example :
    StandsIn plain_hash time_of transcript
      (initial_ledger_cursor plain_hash time_of transcript (some b'b'))
initial_ledger_cursor-StandsIn_example =
    initial_ledger_cursor-StandsIn plain_hash time_of transcript (some b'b') transcript-IsUtf8

-- A byte that is no UTF-8 is decoded to a character of three bytes: the cursor stands behind the
-- end of the transcript.
abbrev only_b : Text → Option ℕ
only_b [] = none
only_b (c ∷ s) = if c == b'b' then some 5 else none

invalid_byte_moves_the_cursor :
    (initial_ledger_cursor plain_hash only_b (0xff ∷ 10 ∷ b'b' ∷ []) (some 0)).size ≡ 4
unfolding initial_ledger_cursor encode_utf8 decode_utf8
invalid_byte_moves_the_cursor = refl

abbrev marked_entry : LedgerEntry
marked_entry = record fresh_entry { status = LedgerStatus.needs_attention }

fresh_ledger_entry-matches_example :
    evaluate_sync_cursor plain_hash
      (fresh_ledger_entry plain_hash time_of session transcript (some b'b'))
      (snapshot_of transcript)
    ≢ attention prefix_mismatch marked_entry
fresh_ledger_entry-matches_example =
    fresh_ledger_entry-matches plain_hash time_of session transcript (some b'b') prefix_mismatch
      marked_entry transcript-IsUtf8

execute_sync_sweep-outcomes_example : outcomes (swept SyncMode.sync) ≡ length twice
execute_sync_sweep-outcomes_example =
    execute_sync_sweep-outcomes plain_hash no_time (args_of SyncMode.sync) twice

execute_sync_sweep-IsReadOnly_example : IsReadOnly (swept SyncMode.status)
execute_sync_sweep-IsReadOnly_example =
    execute_sync_sweep-IsReadOnly plain_hash no_time (args_of SyncMode.status) twice refl

execute_sync_sweep-IsGuarded_example : IsGuarded (swept SyncMode.sync)
execute_sync_sweep-IsGuarded_example =
    execute_sync_sweep-IsGuarded plain_hash no_time (args_of SyncMode.sync) twice refl

-- The job that the sweep starts.
abbrev IsStarted : Text → Type 0
IsStarted id = id ≡ codes "job_1"

quiet_world-IsFair : IsFair plain_hash no_time (args_of SyncMode.sync) IsStarted quiet_world session
quiet_world-IsFair = record { unfinished = λ id new. tt; new = λ context id e. cc e }

execute_sync_sweep-Distinct_example : Distinct (swept SyncMode.sync).summary.started
execute_sync_sweep-Distinct_example =
    execute_sync_sweep-Distinct plain_hash no_time (args_of SyncMode.sync) IsStarted twice
      (quiet_world-IsFair, (quiet_world-IsFair, tt))
