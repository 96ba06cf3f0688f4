-- ===== src/Jobs/View.antt =====
-- New job records, their list and their view (jobs/records.ts).
pub mod Laws
use codealmanac.Prelude.{
  ℕ, ◌-◌, Bool, true, false, not, ◌&&◌, ◌||◌, Option, none, some, List, [], ◌∷◌, ◌++◌, map, Text,
  codes, same, contains, or_else, or_next, if◌then◌else◌,
}
use codealmanac.Jobs.Record.{JobStatus, queued, running, done, failed, cancelled, JobRecord}

-- The parts of `OperationSpec` that a record takes over.
pub record Metadata : Type 0 where
  pub operation : Text
  pub target_kind : Option Text
  pub target_paths : Option (List Text)

pub record OperationSpec : Type 0 where
  pub provider : Text
  pub model : Option Text
  pub metadata : Option Metadata

abbrev operation_of : Option Metadata → Text
operation_of none = codes "absorb"
operation_of (some metadata) = metadata.operation

abbrev target_kind_of : Option Metadata → Option Text
target_kind_of none = none
target_kind_of (some metadata) = metadata.target_kind

abbrev target_paths_of : Option Metadata → Option (List Text)
target_paths_of none = none
target_paths_of (some metadata) = metadata.target_paths

-- `log_path` is `jobLogPath` of the repository and the id.
unfoldable pub build_started_job_record : Text → Text → Text → OperationSpec → ℕ → ℕ → JobRecord
build_started_job_record job_id repo_root log_path spec started_at pid = record {
  id = job_id;
  operation = operation_of spec.metadata;
  status = running;
  repo_root = repo_root;
  pid = pid;
  provider = spec.provider;
  model = spec.model;
  provider_session_id = none;
  started_at = some started_at;
  finished_at = none;
  duration_ms = none;
  log_path = log_path;
  target_kind = target_kind_of spec.metadata;
  target_paths = target_paths_of spec.metadata;
  summary = none;
  page_changes = none;
  operation_output = none;
  error = none;
  failure = none;
}

unfoldable pub build_queued_job_record : Text → Text → Text → OperationSpec → ℕ → JobRecord
unfolding build_started_job_record
build_queued_job_record job_id repo_root log_path spec queued_at =
    record (build_started_job_record job_id repo_root log_path spec queued_at 0) { status = queued }

abbrev pub job_ids : List JobRecord → List Text
job_ids jobs = map (λ job. job.id) jobs

-- The loop over the files of both directories; `none` is a file without a valid record.
unfoldable pub collect_job_records : List JobRecord → List (Option JobRecord) → List JobRecord
collect_job_records jobs [] = jobs
collect_job_records jobs (none ∷ rest) = collect_job_records jobs rest
collect_job_records jobs (some job ∷ rest) =
    collect_job_records (if contains job.id (job_ids jobs) then jobs else jobs ++ job ∷ []) rest

-- The stable sort; `precedes a b` says that `b.startedAt.localeCompare(a.startedAt) < 0`.
module _ (precedes : JobRecord → JobRecord → Bool) where
  unfoldable pub insert_job : JobRecord → List JobRecord → List JobRecord
  insert_job job [] = job ∷ []
  insert_job job (other ∷ jobs) =
      let rest = insert_job job jobs in
      if precedes other job then other ∷ rest else job ∷ other ∷ jobs

  unfoldable pub sort_jobs : List JobRecord → List JobRecord
  unfolding insert_job
  sort_jobs [] = []
  sort_jobs (job ∷ jobs) = insert_job job (sort_jobs jobs)

  unfoldable pub list_job_records : List (Option JobRecord) → List JobRecord
  unfolding collect_job_records sort_jobs
  list_job_records files = sort_jobs (collect_job_records [] files)

pub data DisplayJobStatus : Type 0 where
  shown : JobStatus → DisplayJobStatus
  stale : DisplayJobStatus

-- `job` is the record with the view's error.
pub record JobView : Type 0 where
  pub job : JobRecord
  pub display_status : DisplayJobStatus
  pub elapsed_ms : ℕ

abbrev span : Option ℕ → ℕ → ℕ
span none finished = 0
span (some started) finished = finished - started

unfoldable pub display_status_of : (ℕ → Bool) → JobStatus → ℕ → DisplayJobStatus
display_status_of alive running pid = if alive pid then shown running else stale
display_status_of alive queued pid = shown queued
display_status_of alive done pid = shown done
display_status_of alive failed pid = shown failed
display_status_of alive cancelled pid = shown cancelled

abbrev view_error : DisplayJobStatus → Option Text → Option Text
view_error stale error = some (codes "process ended without a final status")
view_error (shown status) error = error

-- A `finishedAt` that is set is a date.
unfoldable pub to_job_view : JobRecord → ℕ → (ℕ → Bool) → JobView
unfolding display_status_of
to_job_view job now alive =
    let display = display_status_of alive job.status job.pid in
    record {
      job = record job { error = view_error display job.error };
      display_status = display;
      elapsed_ms = or_else job.duration_ms (span job.started_at (or_else job.finished_at now));
    }
