-- ===== src/Jobs/Execution/Laws.antt =====
-- A cancellation and the end of a run (jobs/executor.ts, jobs/finalization.ts).
use codealmanac.Prelude.{
  ℕ, Bool, true, false, not, ◌&&◌, ◌≡◌, refl, inl, inr, some, Text, same_refl, or_else,
  if◌then◌else◌, if_intro, Bool-cases, get_key-set_key,
}
use codealmanac.Jobs.Record.{JobStatus, cancelled, JobRecord, JobReport, finish_job_record}
use codealmanac.Jobs.Store.{JobStore, read_job_record, write_job_record}
use codealmanac.Jobs.Finalization.{
  is_cancelled, cancel_seen, cancelled_record, finish_cancelled, finish_unless_cancelled,
}
use codealmanac.Jobs.Execution.{
  HarnessResult, Execution, attempt_of, status_of, settle_result, execute_started_job,
}

pub read-write_job_record :
    (path : Text) (job : JobRecord) (s : JobStore)
    → read_job_record path (write_job_record path job s) ≡ some job
unfolding read_job_record write_job_record
read-write_job_record path job s = rw (get_key-set_key path path job s.files, same_refl path)

pub is_cancelled_sound : (status : JobStatus) → is_cancelled status ≡ true → status ≡ cancelled
is_cancelled_sound cancelled h = refl
is_cancelled_sound JobStatus.queued h = absurd (cc h)
is_cancelled_sound JobStatus.running h = absurd (cc h)
is_cancelled_sound JobStatus.done h = absurd (cc h)
is_cancelled_sound JobStatus.failed h = absurd (cc h)

pub cancelled_record-status :
    (job : JobRecord) (at : ℕ) → (cancelled_record job at).status ≡ cancelled
unfolding cancelled_record finish_job_record
cancelled_record-status job at =
    if_intro (λ j. j.status ≡ cancelled) (is_cancelled job.status) job _
      (λ h. is_cancelled_sound job.status h) (λ h. refl)

abbrev base_of : Text → JobRecord → JobStore → JobRecord
base_of path fallback s = or_else (read_job_record path s) fallback

pub finish_unless_cancelled_seen :
    (path : Text) (fallback : JobRecord) (status : JobStatus) (at : ℕ) (report : JobReport)
    (s : JobStore)
    → cancel_seen path fallback.id s ≡ true
    → finish_unless_cancelled path fallback status at report s ≡ (
      cancelled_record (base_of path fallback s) at,
      write_job_record path (cancelled_record (base_of path fallback s) at) s,
    )
unfolding finish_unless_cancelled finish_cancelled
finish_unless_cancelled_seen path fallback status at report s h = rw h refl

pub finish_unless_cancelled_unseen :
    (path : Text) (fallback : JobRecord) (status : JobStatus) (at : ℕ) (report : JobReport)
    (s : JobStore)
    → cancel_seen path fallback.id s ≡ false
    → finish_unless_cancelled path fallback status at report s ≡ (
      finish_job_record (base_of path fallback s) status at report,
      write_job_record path (finish_job_record (base_of path fallback s) status at report) s,
    )
unfolding finish_unless_cancelled
finish_unless_cancelled_unseen path fallback status at report s h = rw h refl

-- The two parts of the answer that the test decides.
settled :
    (job : JobRecord) (result : HarnessResult) (seen : Bool)
    → job.status ≡ (if seen then cancelled else status_of result.success)
    → (settle_result job result).success ≡ (not seen && result.success)
settled job result true e = elim (Bool-cases result.success) [
  | inl won ↦ rw (e, won) refl
  | inr lost ↦ rw (e, lost) refl
]
settled job result false e = elim (Bool-cases result.success) [
  | inl won ↦ rw (e, won) refl
  | inr lost ↦ rw (e, lost) refl
]

-- What a run leaves: the record is stored; its status is cancelled if the record or a mark says so
-- by the end of the attempt, and otherwise follows the attempt; and only a run that was not
-- cancelled has a successful result.
pub execute_started_job-cancelled :
    (world : Execution) (started : JobRecord) (s : JobStore)
    → ((execute_started_job world started s).job.status ≡ (
        if cancel_seen started.id started.id (world.meanwhile s)
        then cancelled
        else status_of (attempt_of world world.snapshot).result.success))
      × ((execute_started_job world started s).result.success ≡ (
          not (cancel_seen started.id started.id (world.meanwhile s))
          && (attempt_of world world.snapshot).result.success))
      × (read_job_record started.id (execute_started_job world started s).store
          ≡ some (execute_started_job world started s).job)
unfolding execute_started_job
execute_started_job-cancelled world started s =
    let attempt = attempt_of world world.snapshot in
    let t = world.meanwhile s in
    elim (Bool-cases (cancel_seen started.id started.id t)) [
      | inl seen ↦
          let job = cancelled_record (base_of started.id started t) world.finished_at in
          let e =
            finish_unless_cancelled_seen started.id started (status_of attempt.result.success)
              world.finished_at attempt.report t seen in
          let same_status =
            cancelled_record-status (base_of started.id started t) world.finished_at in
          rw (e, seen)
            (
              same_status,
              settled job attempt.result true same_status,
              read-write_job_record started.id job t,
            )
      | inr unseen ↦
          let status = status_of attempt.result.success in
          let job =
            finish_job_record (base_of started.id started t) status world.finished_at
              attempt.report in
          let e =
            finish_unless_cancelled_unseen started.id started status world.finished_at
              attempt.report t unseen in
          let same_status : job.status ≡ status = unfold finish_job_record in refl in
          rw (e, unseen)
            (
              same_status,
              settled job attempt.result false same_status,
              read-write_job_record started.id job t,
            )
    ]
