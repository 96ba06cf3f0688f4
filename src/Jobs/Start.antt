-- ===== src/Jobs/Start.antt =====
-- How jobs begin and are cancelled (jobs/start.ts, and `runJobsCancel` in cli/commands/jobs.ts).
use codealmanac.Prelude.{ℕ, Bool, true, false, Option, none, some, Text, codes, if◌then◌else◌}
use codealmanac.Jobs.Record.{
  JobStatus, queued, running, failed, cancelled, JobRecord, no_report, is_final, finish_job_record,
}
use codealmanac.Jobs.View.{OperationSpec, build_started_job_record, build_queued_job_record}
use codealmanac.Jobs.Store.{JobStore, read_job_record, write_job_record, mark_job_cancelled}
use codealmanac.Jobs.Finalization.{cancelled_record_if_requested}
use codealmanac.Jobs.Execution.{HarnessResult, failed_result, Execution, execute_started_job}

abbrev pub is_queued : JobStatus → Bool
is_queued queued = true
is_queued _ = false

-- `startQueuedJob` answers with a result, or with null if the job is not queued.
pub record Started : Type 0 where
  pub answer : Option (JobRecord × HarnessResult)
  pub store : JobStore

-- What happens around one start: the clock and the process, what others do to the store between
-- the claim and the second test, and the execution.
pub record StartWorld : Type 0 where
  pub before_claim : ℕ
  pub claimed_at : ℕ
  pub pid : ℕ
  pub at_claim : JobStore → JobStore
  pub after_claim : ℕ
  pub execution : Execution

abbrev pub cancelled_before_start_result : JobRecord → JobStore → Started
cancelled_before_start_result job s = record {
  answer = some (job, failed_result (codes "job cancelled before start"));
  store = s;
}

-- The claim of a queued record.
abbrev pub running_record : JobRecord → ℕ → ℕ → JobRecord
running_record existing pid started_at = record existing {
  status = running;
  pid = pid;
  started_at = some started_at;
  finished_at = none;
  duration_ms = none;
  summary = none;
  page_changes = none;
  error = none;
  failure = none;
}

-- After a test for cancellation: the answer if it was requested, otherwise what comes next.
abbrev pub unless_cancelled : Option JobRecord × JobStore → (JobStore → Started) → Started
unless_cancelled (some job, s) next = cancelled_before_start_result job s
unless_cancelled (none, s) next = next s

abbrev pub run_started : Execution → JobRecord → JobStore → Started
run_started world started s =
    let run = execute_started_job world started s in
    record { answer = some (run.job, run.result); store = run.store }

unfoldable pub claim_job : StartWorld → Text → JobRecord → JobStore → Started
claim_job world job_id existing s =
    let claimed = running_record existing world.pid world.claimed_at in
    unless_cancelled
      (cancelled_record_if_requested job_id job_id claimed world.after_claim
        (world.at_claim (write_job_record job_id claimed s)))
      (run_started world.execution claimed)

unfoldable pub start_found : StartWorld → Text → JobStore → Option JobRecord → Started
unfolding claim_job
start_found world job_id s none = record { answer = none; store = s }
start_found world job_id s (some existing) =
    if is_queued existing.status
    then unless_cancelled
        (cancelled_record_if_requested job_id job_id existing world.before_claim s)
        (claim_job world job_id existing)
    else record { answer = none; store = s }

unfoldable pub start_queued_job : StartWorld → Text → JobStore → Started
unfolding start_found
start_queued_job world job_id s = start_found world job_id s (read_job_record job_id s)

-- The two ways in which no worker comes to be: no entrypoint, or a `spawn` that throws.
pub data Spawn : Type 0 where
  no_entrypoint : Spawn
  spawn_threw : Text → Spawn
  spawned : ℕ → Spawn

abbrev pub fail_queued : Text → JobRecord → Text → ℕ → JobStore → JobStore
fail_queued job_id job error finished_at s =
    write_job_record job_id
      (finish_job_record job failed finished_at (record no_report { error = some error })) s

-- The record and the process id, unless an error is thrown, and the store in either case.
unfoldable pub after_queueing :
    Spawn → Text → JobRecord → ℕ → JobStore → Option (JobRecord × ℕ) × JobStore
after_queueing no_entrypoint job_id job now s = (
  none,
  fail_queued job_id job (codes "cannot start background process without an entrypoint") now s,
)
after_queueing (spawn_threw error) job_id job now s = (none, fail_queued job_id job error now s)
after_queueing (spawned pid) job_id job now s = (some (job, pid), s)

unfoldable pub start_background_job :
    Spawn
    → Text
    → Text
    → Text
    → OperationSpec
    → ℕ
    → ℕ
    → JobStore
    → Option (JobRecord × ℕ) × JobStore
unfolding after_queueing build_queued_job_record
start_background_job spawn job_id repo_root log_path spec queued_at now s =
    let job = build_queued_job_record job_id repo_root log_path spec queued_at in
    after_queueing spawn job_id job now (write_job_record job_id job s)

-- A foreground job. `finally` gives the lock back as soon as `executeStartedJob` has been called:
-- its promise is returned, not awaited. `pending` is the record of a job that still runs then.
pub record Foreground : Type 0 where
  pub lock_held : Bool
  pub answer : Option (JobRecord × HarnessResult)
  pub pending : Option JobRecord
  pub store : JobStore

abbrev pub stopped_early : JobRecord → JobStore → Foreground
stopped_early job s = record {
  lock_held = false;
  answer = some (job, failed_result (codes "job cancelled before start"));
  pending = none;
  store = s;
}

abbrev pub unless_stopped : Option JobRecord × JobStore → (JobStore → Foreground) → Foreground
unless_stopped (some job, s) next = stopped_early job s
unless_stopped (none, s) next = next s

abbrev pub left_running : JobRecord → JobStore → Foreground
left_running job s = record { lock_held = false; answer = none; pending = some job; store = s }

-- `startForegroundJob` up to the end of its `finally`, with the lock taken or not.
unfoldable pub start_foreground_job :
    Bool → StartWorld → Text → Text → Text → OperationSpec → JobStore → Option Foreground
unfolding build_started_job_record
start_foreground_job locked world job_id repo_root log_path spec s =
    let started =
      build_started_job_record job_id repo_root log_path spec world.claimed_at world.pid in
    if locked
    then some (
        unless_stopped (cancelled_record_if_requested job_id job_id started world.before_claim s)
          λ s.
            unless_stopped
              (cancelled_record_if_requested job_id job_id started world.after_claim
                (world.at_claim (write_job_record job_id started s)))
              (left_running started))
    else none

pub data CancelReply : Type 0 where
  missing_job : CancelReply
  already_final : JobStatus → CancelReply
  job_cancelled : CancelReply

-- The end of `runJobsCancel`: the mark, and the record. The signal to the process is left out.
unfoldable pub cancel_job : Text → JobRecord → ℕ → JobStore → JobStore
cancel_job job_id job finished_at s =
    write_job_record job_id (finish_job_record job cancelled finished_at no_report)
      (mark_job_cancelled job.id s)

unfoldable pub cancel_found : Text → ℕ → JobStore → Option JobRecord → CancelReply × JobStore
unfolding cancel_job
cancel_found job_id finished_at s none = (missing_job, s)
cancel_found job_id finished_at s (some job) =
    if is_final job.status
    then (already_final job.status, s)
    else (job_cancelled, cancel_job job_id job finished_at s)

unfoldable pub run_jobs_cancel : Text → ℕ → JobStore → CancelReply × JobStore
unfolding cancel_found
run_jobs_cancel job_id finished_at s = cancel_found job_id finished_at s (read_job_record job_id s)
