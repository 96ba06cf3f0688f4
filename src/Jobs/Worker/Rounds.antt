-- ===== src/Jobs/Worker/Rounds.antt =====
-- What a round of the worker leaves (jobs/worker.ts, jobs/start.ts, jobs/executor.ts).
use codealmanac.Prelude.{
  ℕ, Bool, true, false, ◌≡◌, refl, sym, ◌∙◌, ◌⊎◌, inl, inr, none, some, Text, same, same_sound,
  same_iff, or_else, Bool-cases, Option-cases, arith, subst,
}
use codealmanac.Jobs.Record.{failed, JobRecord, JobReport, no_report, is_final, finish_job_record}
use codealmanac.Jobs.Store.{JobStore, read_job_record, write_job_record}
use codealmanac.Jobs.Finalization.{
  cancelled_record, cancel_seen, finish_cancelled, finish_unless_cancelled,
  cancelled_record_if_requested,
}
use codealmanac.Jobs.Execution.{Execution, status_of, attempt_of, execute_started_job}
use codealmanac.Jobs.Execution.Laws.{
  read-write_job_record, cancelled_record-status, finish_unless_cancelled_seen,
  finish_unless_cancelled_unseen,
}
use codealmanac.Jobs.Start.{
  is_queued, StartWorld, running_record, claim_job, start_found, start_queued_job, unless_cancelled,
}
use codealmanac.Jobs.Queue.Laws.{IsFiled, read_job_record-id}
use codealmanac.Jobs.Worker.{
  Round, spec_read, spec_threw, mark_queued_job_failed, fail_found, work_on,
}
use codealmanac.Jobs.Worker.Calm.{
  Later, IsCalm, IsCalmRound, Elsewhere, IsOver, Elsewhere-trans, calm-Elsewhere, write-Elsewhere,
}

-- The file has come to its end, and the others as they may.
pub record Finishes (path : Text) (s t : JobStore) : Type 0 where
  pub elsewhere : Elsewhere path s t
  pub over : IsOver path t

Finishes-after :
    (path : Text) (s t u : JobStore) → Elsewhere path s t → Finishes path t u → Finishes path s u
Finishes-after path s t u h k = record {
  elsewhere = Elsewhere-trans path s t u h k.elsewhere;
  over = k.over;
}

write-Finishes :
    (path : Text) (job : JobRecord) (s : JobStore)
    → IsFiled s
    → job.id ≡ path
    → is_final job.status ≡ true
    → Finishes path s (write_job_record path job s)
write-Finishes path job s filed own final = record {
  elsewhere = write-Elsewhere path job s filed own;
  over = (job, read-write_job_record path job s, final);
}

base_id :
    (path : Text) (fallback : JobRecord) (s : JobStore)
    → IsFiled s
    → fallback.id ≡ path
    → (or_else (read_job_record path s) fallback).id ≡ path
base_id path fallback s filed own = elim (Option-cases (read_job_record path s)) [
  | inl e ↦ rw e own
  | inr (job, e) ↦ rw e (read_job_record-id path job s filed e)
]

cancelled_record-id : (job : JobRecord) (at : ℕ) → (cancelled_record job at).id ≡ job.id
unfolding cancelled_record finish_job_record
cancelled_record-id job at = ground arith

cancelled_record-final :
    (job : JobRecord) (at : ℕ) → is_final (cancelled_record job at).status ≡ true
unfolding is_final
cancelled_record-final job at = rw (cancelled_record-status job at) refl

status_of-final : (success : Bool) → is_final (status_of success) ≡ true
unfolding is_final
status_of-final true = refl
status_of-final false = refl

finish_unless_cancelled-Finishes :
    (path : Text) (fallback : JobRecord) (success : Bool) (at : ℕ) (report : JobReport)
    (s : JobStore)
    → IsFiled s
    → fallback.id ≡ path
    → Finishes path s (finish_unless_cancelled path fallback (status_of success) at report s).1
finish_unless_cancelled-Finishes path fallback success at report s filed own =
    let base = or_else (read_job_record path s) fallback in
    elim (Bool-cases (cancel_seen path fallback.id s)) [
      | inl seen ↦
          rw (finish_unless_cancelled_seen path fallback (status_of success) at report s seen) (
            write-Finishes path (cancelled_record base at) s filed
              (cancelled_record-id base at ∙ base_id path fallback s filed own)
              (cancelled_record-final base at))
      | inr unseen ↦
          rw (finish_unless_cancelled_unseen path fallback (status_of success) at report s unseen) (
            write-Finishes path (finish_job_record base (status_of success) at report) s filed
              (unfold finish_job_record in base_id path fallback s filed own)
              (unfold finish_job_record in status_of-final success))
    ]

-- The test for cancellation ends the job, or does nothing.
cancelled_record_if_requested_cases :
    (path job_id : Text) (fallback : JobRecord) (at : ℕ) (s : JobStore)
    → IsFiled s
    → fallback.id ≡ path
    → (cancelled_record_if_requested path job_id fallback at s ≡ (none, s))
      ⊎ ((job : JobRecord) × (t : JobStore) × (cancelled_record_if_requested path job_id fallback at
              s
            ≡ (some job, t))
          × Finishes path s t)
unfolding cancelled_record_if_requested finish_cancelled
cancelled_record_if_requested_cases path job_id fallback at s filed own =
    let base = or_else (read_job_record path s) fallback in
    let job = cancelled_record base at in
    elim (Bool-cases (cancel_seen path job_id s)) [
      | inr unseen ↦ inl (rw unseen refl)
      | inl seen ↦ inr (
        job,
        write_job_record path job s,
        rw seen refl,
        write-Finishes path job s filed
            (cancelled_record-id base at ∙ base_id path fallback s filed own)
            (cancelled_record-final base at),
      )
    ]

execute_started_job-Finishes :
    (world : Execution) (started : JobRecord) (s : JobStore)
    → IsCalm world.meanwhile
    → IsFiled s
    → Finishes started.id s (execute_started_job world started s).store
unfolding execute_started_job
execute_started_job-Finishes world started s calm filed =
    let attempt = attempt_of world world.snapshot in
    let t = world.meanwhile s in
    Finishes-after started.id s t _ (calm-Elsewhere started.id world.meanwhile s calm filed) (
      finish_unless_cancelled-Finishes started.id started attempt.result.success world.finished_at
        attempt.report t (calm.filed s filed) refl)

start_found-Finishes :
    (world : StartWorld) (job : JobRecord) (s : JobStore)
    → IsCalm world.at_claim
    → IsCalm world.execution.meanwhile
    → IsFiled s
    → is_queued job.status ≡ true
    → Finishes job.id s (start_found world job.id s (some job)).store
unfolding start_found claim_job
start_found-Finishes world job s calm calm' filed waits =
    let path = job.id in
    let claimed = running_record job world.pid world.claimed_at in
    let t = write_job_record path claimed s in
    let u = world.at_claim t in
    let written = write-Elsewhere path claimed s filed refl in
    let before =
      Elsewhere-trans path s t u written
        (calm-Elsewhere path world.at_claim t calm written.filed) in
    rw waits
      (elim (cancelled_record_if_requested_cases path path job world.before_claim s filed refl) [
        | inr (stopped, v, e, finishes) ↦ rw (e, unless_cancelled) finishes
        | inl e ↦
            rw (e, unless_cancelled)
              (elim (cancelled_record_if_requested_cases path path claimed world.after_claim u
                before.filed refl) [
                  | inr (stopped, v, d, finishes) ↦
                      rw (d, unless_cancelled) (Finishes-after path s u v before finishes)
                  | inl d ↦
                      rw (d, unless_cancelled)
                        (Finishes-after path s u _ before (
                          execute_started_job-Finishes world.execution claimed u calm'
                            before.filed))
                ])
      ])

pub work_on-Finishes :
    (round : Round) (job : JobRecord) (s : JobStore)
    → IsCalmRound round
    → IsFiled s
    → read_job_record job.id s ≡ some job
    → is_queued job.status ≡ true
    → Finishes job.id s (work_on round job s)
unfolding work_on start_queued_job mark_queued_job_failed fail_found finish_job_record is_final
work_on-Finishes (spec_read world) job s calm filed found waits =
    subst (λ r. Finishes job.id s (start_found world job.id s r).store) (sym found)
      (start_found-Finishes world job s calm.0 calm.1 filed waits)
work_on-Finishes (spec_threw now error) job s calm filed found waits =
    subst (λ r. Finishes job.id s (fail_found job.id now error s r)) (sym found)
      (rw waits (
        write-Finishes job.id
          (finish_job_record job failed now (record no_report { error = some error })) s filed refl
          refl))

pub Finishes-Later :
    (job : JobRecord) (s t : JobStore)
    → Finishes job.id s t
    → read_job_record job.id s ≡ some job
    → (path : Text) → Later (read_job_record path s) (read_job_record path t)
Finishes-Later job s t finishes found path = elim (Bool-cases (same job.id path)) [
  | inl here ↦
      let (last, e, final) = finishes.over in
      subst (λ p. Later (read_job_record p s) (read_job_record p t)) (same_sound job.id path here)
        (rw (found, e) (inr final))
  | inr away ↦ finishes.elsewhere.others path (λ e. cc (away, (same_iff job.id path).1 (sym e)))
]
