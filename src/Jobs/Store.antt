-- ===== src/Jobs/Store.antt =====
-- The job records of a repository and its cancellation marks (jobs/records.ts).
--
-- A record's file is known by the name that `resolveJobRecordPath` looks for, the job's id; a
-- missing or invalid file is absent. Writing a record replaces its file.
use codealmanac.Prelude.{Bool, Option, List, ◌∷◌, Text, contains, map, some, get_key, set_key}
use codealmanac.Jobs.Record.{JobRecord}

pub record JobStore : Type 0 where
  pub files : List (Text × JobRecord)
  pub cancels : List Text

unfoldable pub read_job_record : Text → JobStore → Option JobRecord
read_job_record path s = get_key path s.files

unfoldable pub write_job_record : Text → JobRecord → JobStore → JobStore
write_job_record path job s = record s { files = set_key path job s.files }

unfoldable pub is_job_cancellation_requested : Text → JobStore → Bool
is_job_cancellation_requested job_id s = contains job_id s.cancels

unfoldable pub mark_job_cancelled : Text → JobStore → JobStore
mark_job_cancelled job_id s = record s { cancels = job_id ∷ s.cancels }

-- The files as `listJobRecords` reads them.
abbrev pub stored_files : JobStore → List (Option JobRecord)
stored_files s = map (λ file. some file.1) s.files
