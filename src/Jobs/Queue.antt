-- ===== src/Jobs/Queue.antt =====
-- The queue (`oldestQueuedJob` in jobs/queue.ts).
pub mod Laws
use codealmanac.Prelude.{Bool, Option, none, some, List, [], ◌∷◌, Text, keep}
use codealmanac.Jobs.Record.{JobRecord}
use codealmanac.Jobs.View.{sort_jobs, list_job_records}
use codealmanac.Jobs.Store.{JobStore, stored_files}
use codealmanac.Jobs.Start.{is_queued}

abbrev pub first_of : List JobRecord → Option JobRecord
first_of [] = none
first_of (job ∷ jobs) = some job

-- `newer a b` says that `b.startedAt.localeCompare(a.startedAt) < 0`; the queue is sorted by the
-- converse.
module _ (newer : JobRecord → JobRecord → Bool) where
  abbrev pub older : JobRecord → JobRecord → Bool
  older a b = newer b a

  unfoldable pub oldest_queued_job : JobStore → Option JobRecord
  oldest_queued_job s = first_of (
      sort_jobs older
        (keep (λ job. is_queued job.status) (list_job_records newer (stored_files s))))
