-- ===== src/Jobs/Execution.antt =====
-- The run of a started job (`executeStartedJob` in jobs/executor.ts).
pub mod Laws
use codealmanac.Prelude.{ℕ, Bool, true, false, ◌&&◌, Option, none, some, Text, codes, if◌then◌else◌}
use codealmanac.Jobs.Record.{
  JobStatus, done, failed, cancelled, HarnessFailure, JobSummary, JobPageChanges,
  JobOperationOutput, JobRecord, JobReport, no_report,
}
use codealmanac.Jobs.Store.{JobStore}
use codealmanac.Jobs.Finalization.{is_cancelled, finish_unless_cancelled}

-- What the executor reads of `HarnessResult`.
pub record HarnessResult : Type 0 where
  pub success : Bool
  pub provider_session_id : Option Text
  pub error : Option Text
  pub failure : Option HarnessFailure

-- A promise that is fulfilled with a value, or rejected with a message.
pub data Settled (A : Type 0) : Type 0 where
  fulfilled : A → Settled A
  rejected : Text → Settled A

-- `JobWikiEffects`
pub record WikiEffects : Type 0 where
  pub summary : JobSummary
  pub page_changes : JobPageChanges
  pub operation_output : Option JobOperationOutput

-- What the world answers: the snapshot of the wiki, the harness, the collected effects, the
-- indexer, and what others do to the store until the job is finished. The session id that
-- `persistProviderSessionId` writes is among the latter.
pub record Execution : Type 0 where
  pub snapshot : Settled Unit
  pub harness : Settled HarnessResult
  pub effects : Settled WikiEffects
  pub reindex : Settled Unit
  pub meanwhile : JobStore → JobStore
  pub finished_at : ℕ

abbrev pub failed_result : Text → HarnessResult
failed_result error = record {
  success = false;
  provider_session_id = none;
  error = some error;
  failure = none;
}

-- How the attempt ends: its result, and what is reported of it.
pub record Attempt : Type 0 where
  pub result : HarnessResult
  pub report : JobReport

abbrev pub effects_report : WikiEffects → JobReport
effects_report effects = record no_report {
  summary = some effects.summary;
  page_changes = some effects.page_changes;
  operation_output = effects.operation_output;
}

-- The outer `catch`, with what was reported before.
abbrev pub caught : Text → JobReport → Attempt
caught error before = record {
  result = failed_result error;
  report = record before { error = some error };
}

-- The inner `try`: a harness that throws is a failed result.
abbrev pub harness_result : Settled HarnessResult → HarnessResult
harness_result (fulfilled result) = result
harness_result (rejected error) = failed_result error

abbrev pub whole_report : HarnessResult → JobReport → JobReport
whole_report result effects = record effects {
  provider_session_id = result.provider_session_id;
  error = result.error;
  failure = result.failure;
}

-- `reindexSuccessfulJob`, for a successful result only.
unfoldable pub after_effects : Settled Unit → HarnessResult → JobReport → Attempt
after_effects (fulfilled _) result report = record {
  result = result;
  report = whole_report result report;
}
after_effects (rejected error) result report =
    if result.success
    then caught error report
    else record { result = result; report = whole_report result report }

unfoldable pub after_harness : Settled WikiEffects → Settled Unit → HarnessResult → Attempt
unfolding after_effects
after_harness (fulfilled effects) reindex result =
    after_effects reindex result (effects_report effects)
after_harness (rejected error) reindex result = caught error no_report

unfoldable pub attempt_of : Execution → Settled Unit → Attempt
unfolding after_harness
attempt_of world (fulfilled _) =
    after_harness world.effects world.reindex (harness_result world.harness)
attempt_of world (rejected error) = caught error no_report

abbrev pub status_of : Bool → JobStatus
status_of true = done
status_of false = failed

pub record JobRun : Type 0 where
  pub job : JobRecord
  pub result : HarnessResult
  pub store : JobStore

-- A job that was cancelled has no successful result.
abbrev pub settle_result : JobRecord → HarnessResult → HarnessResult
settle_result job result =
    if is_cancelled job.status && result.success
    then failed_result (codes "job cancelled before final status")
    else result

unfoldable pub execute_started_job : Execution → JobRecord → JobStore → JobRun
unfolding attempt_of finish_unless_cancelled
execute_started_job world started s =
    let attempt = attempt_of world world.snapshot in
    let (job, next) =
      finish_unless_cancelled started.id started (status_of attempt.result.success)
        world.finished_at attempt.report (world.meanwhile s) in
    record { job = job; result = settle_result job attempt.result; store = next }
