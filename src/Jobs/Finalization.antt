-- ===== src/Jobs/Finalization.antt =====
-- The end of a job (jobs/finalization.ts).
use codealmanac.Prelude.{
  ℕ, Bool, true, false, ◌||◌, Option, none, some, Text, or_else, if◌then◌else◌,
}
use codealmanac.Jobs.Record.{
  JobStatus, cancelled, JobRecord, JobReport, no_report, finish_job_record,
}
use codealmanac.Jobs.Store.{
  JobStore, read_job_record, write_job_record, is_job_cancellation_requested,
}

abbrev pub is_cancelled : JobStatus → Bool
is_cancelled cancelled = true
is_cancelled _ = false

-- `current?.status === "cancelled"`
abbrev pub has_cancelled : Option JobRecord → Bool
has_cancelled none = false
has_cancelled (some job) = is_cancelled job.status

unfoldable pub cancelled_record : JobRecord → ℕ → JobRecord
cancelled_record fallback finished_at =
    if is_cancelled fallback.status
    then fallback
    else finish_job_record fallback cancelled finished_at no_report

unfoldable pub finish_cancelled : Text → JobRecord → ℕ → JobStore → JobRecord × JobStore
unfolding cancelled_record
finish_cancelled path fallback finished_at s =
    let job = cancelled_record fallback finished_at in (job, write_job_record path job s)

-- The test of both functions: the record says so, or there is a mark.
abbrev pub cancel_seen : Text → Text → JobStore → Bool
cancel_seen path job_id s =
    has_cancelled (read_job_record path s) || is_job_cancellation_requested job_id s

unfoldable pub finish_unless_cancelled :
    Text → JobRecord → JobStatus → ℕ → JobReport → JobStore → JobRecord × JobStore
unfolding finish_cancelled
finish_unless_cancelled path fallback status finished_at report s =
    let base = or_else (read_job_record path s) fallback in
    if cancel_seen path fallback.id s
    then finish_cancelled path base finished_at s
    else let finished = finish_job_record base status finished_at report in
      (finished, write_job_record path finished s)

unfoldable pub cancelled_record_if_requested :
    Text → Text → JobRecord → ℕ → JobStore → Option JobRecord × JobStore
unfolding finish_cancelled
cancelled_record_if_requested path job_id fallback finished_at s =
    if cancel_seen path job_id s
    then (let (job, next) =
          finish_cancelled path (or_else (read_job_record path s) fallback) finished_at s in
        (some job, next))
    else (none, s)
