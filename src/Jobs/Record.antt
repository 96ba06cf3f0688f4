-- ===== src/Jobs/Record.antt =====
-- Job records and their life (jobs/types.ts, jobs/records.ts, HarnessFailure of harness/events.ts).
use codealmanac.Prelude.{ℕ, ◌-◌, Bool, true, false, Option, none, some, List, Text, or_next}

pub data JobStatus : Type 0 where
  queued running done failed cancelled : JobStatus

pub record HarnessFailure : Type 0 where
  pub provider : Text
  pub message : Text
  pub fix : Option Text
  pub code : Option Text
  pub raw : Option Text

-- The counts; cost, turns and usage are only copied around and are left out.
pub record JobSummary : Type 0 where
  pub created : ℕ
  pub updated : ℕ
  pub archived : ℕ
  pub deleted : ℕ

pub record JobPageChanges : Type 0 where
  pub job_id : Text
  pub created : List Text
  pub updated : List Text
  pub archived : List Text
  pub deleted : List Text
  pub summary : Option Text

-- The JSON value is kept as its text.
pub record JobOperationOutput : Type 0 where
  pub contract : Text
  pub value : Text

-- Times are in milliseconds; a `startedAt` that is no date is `none`.
pub record JobRecord : Type 0 where
  pub id : Text
  pub operation : Text
  pub status : JobStatus
  pub repo_root : Text
  pub pid : ℕ
  pub provider : Text
  pub model : Option Text
  pub provider_session_id : Option Text
  pub started_at : Option ℕ
  pub finished_at : Option ℕ
  pub duration_ms : Option ℕ
  pub log_path : Text
  pub target_kind : Option Text
  pub target_paths : Option (List Text)
  pub summary : Option JobSummary
  pub page_changes : Option JobPageChanges
  pub operation_output : Option JobOperationOutput
  pub error : Option Text
  pub failure : Option HarnessFailure

-- `done`, `failed` or `cancelled`
unfoldable pub is_final : JobStatus → Bool
is_final queued = false
is_final running = false
is_final _ = true

-- The optional arguments of `finishJobRecord`.
pub record JobReport : Type 0 where
  pub provider_session_id : Option Text
  pub summary : Option JobSummary
  pub page_changes : Option JobPageChanges
  pub operation_output : Option JobOperationOutput
  pub error : Option Text
  pub failure : Option HarnessFailure

abbrev pub no_report : JobReport
no_report = record {
  provider_session_id = none;
  summary = none;
  page_changes = none;
  operation_output = none;
  error = none;
  failure = none;
}

-- `Math.max(0, finished - started)`; subtraction stops at 0.
abbrev pub elapsed : Option ℕ → ℕ → Option ℕ
elapsed none finished = none
elapsed (some started) finished = some (finished - started)

unfoldable pub finish_job_record : JobRecord → JobStatus → ℕ → JobReport → JobRecord
finish_job_record job status finished report = record job {
  status = status;
  provider_session_id = or_next report.provider_session_id job.provider_session_id;
  finished_at = some finished;
  duration_ms = elapsed job.started_at finished;
  summary = report.summary;
  page_changes = report.page_changes;
  operation_output = report.operation_output;
  error = report.error;
  failure = report.failure;
}
