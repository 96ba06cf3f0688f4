-- ===== src/Jobs/Worker.antt =====
-- The worker's loop over the queue (jobs/worker.ts).
pub mod Calm
pub mod Rounds
pub mod Drain
use codealmanac.Prelude.{ℕ, zero, suc, Bool, true, false, Option, none, some, Text, if◌then◌else◌}
use codealmanac.Jobs.Record.{JobStatus, failed, JobRecord, no_report, finish_job_record}
use codealmanac.Jobs.Store.{JobStore, read_job_record, write_job_record}
use codealmanac.Jobs.Start.{is_queued, StartWorld, start_queued_job}
use codealmanac.Jobs.Queue.{oldest_queued_job}

unfoldable pub fail_found : Text → ℕ → Text → JobStore → Option JobRecord → JobStore
fail_found job_id now error s none = s
fail_found job_id now error s (some current) =
    if is_queued current.status
    then write_job_record job_id
        (finish_job_record current failed now (record no_report { error = some error })) s
    else s

unfoldable pub mark_queued_job_failed : Text → ℕ → Text → JobStore → JobStore
unfolding fail_found
mark_queued_job_failed job_id now error s = fail_found job_id now error s (read_job_record job_id s)

-- What happens in one round: the spec's file is read and the job is started, or the read throws.
pub data Round : Type 0 where
  spec_read : StartWorld → Round
  spec_threw : ℕ → Text → Round

unfoldable pub work_on : Round → JobRecord → JobStore → JobStore
work_on (spec_read world) job s = (start_queued_job world job.id s).store
work_on (spec_threw now error) job s = mark_queued_job_failed job.id now error s

-- The loop that holds the lock, on fuel: `none` when the fuel is out. The rounds that are left
-- number what happens in them.
unfoldable pub drain : (JobRecord → JobRecord → Bool) → (ℕ → Round) → ℕ → JobStore → Option JobStore
drain newer rounds zero s = none
drain newer rounds (suc fuel) s = elim (oldest_queued_job newer s) [
  | none ↦ some s
  | some job ↦ drain newer rounds fuel (work_on (rounds fuel) job s)
]
