-- ===== src/Jobs/Tests.antt =====
-- Job records in the queue, finished, listed and shown.
use codealmanac.Prelude.{
  ℕ, suc, ◌-◌, Bool, true, false, not, ◌&&◌, ◌≡◌, refl, sym, ap, ◌∙◌, inl, inr, Option, none, some,
  [], ◌∷◌, codes, NoRepeats, length, if◌then◌else◌,
}
use codealmanac.Jobs.Record.{JobStatus, JobRecord, no_report, finish_job_record}
use codealmanac.Jobs.View.{
  OperationSpec, build_started_job_record, build_queued_job_record, job_ids, list_job_records,
  shown, stale, to_job_view,
}
use codealmanac.Jobs.View.Laws.{to_job_view-finish_job_record, list_job_records-NoRepeats}
use codealmanac.Jobs.Store.{JobStore, read_job_record, mark_job_cancelled}
use codealmanac.Jobs.Finalization.{cancel_seen}
use codealmanac.Jobs.Execution.{
  HarnessResult, Settled, Execution, attempt_of, status_of, execute_started_job,
}
use codealmanac.Jobs.Execution.Laws.{execute_started_job-cancelled}
use codealmanac.Jobs.Start.{Foreground, StartWorld, start_queued_job, start_foreground_job}
use codealmanac.Jobs.Queue.{oldest_queued_job}
use codealmanac.Jobs.Queue.Laws.{IsFiled}
use codealmanac.Jobs.Worker.{Round, spec_read, work_on, drain}
use codealmanac.Jobs.Worker.Calm.{IsCalm, Later-refl, IsOver}
use codealmanac.Jobs.Worker.Drain.{drain-IsOver}
use codealmanac.Prelude.{◌↔◌, Text, same, same_iff, get_key}
use codealmanac.Jobs.Snapshots.{
  PageSnapshotEntry, PageSnapshot, diff_page_snapshots, is_noop_page_delta,
}
use codealmanac.Jobs.Snapshots.Laws.{hash_of, is_noop-diff_page_snapshots}

abbrev garden : OperationSpec
garden = record { provider = codes "claude"; model = none; metadata = none }

abbrev started_job : JobRecord
started_job =
    build_started_job_record (codes "job_1") (codes "/repo") (codes "job_1.log") garden 1000 7

abbrev queued_job : JobRecord
queued_job = build_queued_job_record (codes "job_1") (codes "/repo") (codes "job_1.log") garden 900

dead_job_is_stale : (to_job_view started_job 5000 (λ pid. false)).display_status ≡ stale
unfolding to_job_view build_started_job_record
dead_job_is_stale = refl

to_job_view-finish_job_record_example :
    ((to_job_view
        (finish_job_record started_job JobStatus.done 3000 no_report)
        9000
        (λ pid. false)).display_status
      ≡ shown JobStatus.done)
    × ((to_job_view
          (finish_job_record started_job JobStatus.done 3000 no_report)
          9000
          (λ pid. false)).elapsed_ms
        ≡ 3000 - 1000)
unfolding build_started_job_record
to_job_view-finish_job_record_example =
    to_job_view-finish_job_record started_job JobStatus.done 1000 3000 9000 no_report (λ pid. false)
      (unfold codealmanac.Jobs.Record.is_final in refl) refl

-- The record is in both directories, once queued and once started.
list_job_records-NoRepeats_example :
    NoRepeats
      (job_ids (list_job_records (λ a b. false) (some started_job ∷ none ∷ some queued_job ∷ [])))
list_job_records-NoRepeats_example =
    list_job_records-NoRepeats (λ a b. false) (some started_job ∷ none ∷ some queued_job ∷ [])

abbrev stored : JobStore
stored = record { files = (codes "job_1", queued_job) ∷ []; cancels = [] }

abbrev answered : HarnessResult
answered = record { success = true; provider_session_id = none; error = none; failure = none }

-- The run of a job that somebody cancels meanwhile, or not.
abbrev run_with : (JobStore → JobStore) → Execution
run_with meanwhile = record {
  snapshot = Settled.fulfilled tt;
  harness = Settled.fulfilled answered;
  effects = Settled.rejected (codes "no snapshot");
  reindex = Settled.fulfilled tt;
  meanwhile = meanwhile;
  finished_at = 5000;
}

abbrev cancelling : Execution
cancelling = run_with (λ s. mark_job_cancelled (codes "job_1") s)

execute_started_job-cancelled_example :
    ((execute_started_job cancelling started_job stored).job.status ≡ (
      if cancel_seen started_job.id started_job.id (cancelling.meanwhile stored)
      then JobStatus.cancelled
      else status_of (attempt_of cancelling cancelling.snapshot).result.success))
    × ((execute_started_job cancelling started_job stored).result.success ≡ (
        not (cancel_seen started_job.id started_job.id (cancelling.meanwhile stored))
        && (attempt_of cancelling cancelling.snapshot).result.success))
    × (read_job_record started_job.id (execute_started_job cancelling started_job stored).store
        ≡ some (execute_started_job cancelling started_job stored).job)
execute_started_job-cancelled_example = execute_started_job-cancelled cancelling started_job stored

cancelled_meanwhile :
    (execute_started_job cancelling started_job stored).job.status ≡ JobStatus.cancelled
unfolding execute_started_job read_job_record codealmanac.Prelude.get_key mark_job_cancelled
    codealmanac.Prelude.same build_started_job_record build_queued_job_record
    codealmanac.Jobs.Store.is_job_cancellation_requested codealmanac.Prelude.contains
    finish_job_record
cancelled_meanwhile = refl

abbrev alone : JobStore → JobStore
alone s = s

alone-IsCalm : IsCalm alone
alone-IsCalm = record {
  filed = λ s filed. filed;
  later = λ s path. Later-refl (read_job_record path s);
}

abbrev world : StartWorld
world = record {
  before_claim = 2000;
  claimed_at = 2100;
  pid = 9;
  at_claim = alone;
  after_claim = 2200;
  execution = run_with alone;
}

abbrev rounds : ℕ → Round
rounds n = spec_read world

stored-IsFiled : IsFiled stored
unfolding build_queued_job_record
stored-IsFiled = record {
  named = λ path job i. elim i [
    | inl e ↦ ap (λ file. file.1.id) e ∙ sym (ap (λ file. file.0) e)
    | inr nothing ↦ absurd nothing
  ];
  unique = ((λ i. i), tt);
}

drain-IsOver_example :
    (end : JobStore) × (drain (λ a b. false) rounds (suc (length stored.files)) stored ≡ some end)
    × (oldest_queued_job (λ a b. false) end ≡ none)
    × IsOver (codes "job_1") end
unfolding codealmanac.Prelude.get_key codealmanac.Prelude.same
drain-IsOver_example =
    drain-IsOver (λ a b. false) rounds stored (codes "job_1") queued_job
      (λ n. (alone-IsCalm, alone-IsCalm)) stored-IsFiled (unfold read_job_record in refl)
      (unfold build_queued_job_record in refl)

-- The lock is given back while the job still runs.
abbrev runs_without_lock : Option Foreground → Bool
runs_without_lock none = false
runs_without_lock (some run) = elim run.pending [ none ↦ false | some job ↦ not run.lock_held ]

foreground_without_lock :
    runs_without_lock (
      start_foreground_job true world
        (codes "job_2")
        (codes "/repo")
        (codes "job_2.log")
        garden
        stored)
    ≡ true
unfolding start_foreground_job codealmanac.Jobs.Finalization.cancelled_record_if_requested
    read_job_record codealmanac.Prelude.get_key codealmanac.Prelude.same
    codealmanac.Jobs.Store.is_job_cancellation_requested codealmanac.Prelude.contains
    codealmanac.Jobs.Store.write_job_record codealmanac.Prelude.set_key
foreground_without_lock = refl

-- A queued record in a file of another name is never worked on: a round leaves the store as it is.
abbrev misfiled : JobStore
misfiled = record { files = (codes "job_9", queued_job) ∷ []; cancels = [] }

misfiled_stays : work_on (rounds 0) queued_job misfiled ≡ misfiled
unfolding work_on start_queued_job read_job_record codealmanac.Prelude.get_key
    codealmanac.Prelude.same build_queued_job_record
misfiled_stays = refl

misfiled_is_found : oldest_queued_job (λ a b. false) misfiled ≡ some queued_job
unfolding oldest_queued_job codealmanac.Jobs.View.sort_jobs list_job_records
    codealmanac.Prelude.contains build_queued_job_record
misfiled_is_found = refl

abbrev page_entry : Text → Text → Bool → Text × PageSnapshotEntry
page_entry slug hash archived = (slug, record { slug = slug; hash = hash; archived = archived })

abbrev pages_before : PageSnapshot
pages_before =
    page_entry (codes "b") (codes "1") false ∷ page_entry (codes "a") (codes "2") false ∷ []

abbrev pages_after : PageSnapshot
pages_after =
    page_entry (codes "c") (codes "3") false ∷ page_entry (codes "a") (codes "4") true ∷ []

pages_are_compared : diff_page_snapshots pages_before pages_after ≡ record {
  created = codes "c" ∷ [];
  updated = [];
  archived = codes "a" ∷ [];
  deleted = codes "b" ∷ [];
}
unfolding diff_page_snapshots get_key codealmanac.Prelude.same
pages_are_compared = refl

two_slugs : (a b : Text) → same a b ≡ false → NoRepeats (a ∷ b ∷ [])
two_slugs a b h =
    ((λ i. elim i [ inl e ↦ cc (h, (same_iff a b).1 e) | inr nothing ↦ nothing ]), ((λ i. i), tt))

is_noop-diff_page_snapshots_example :
    (is_noop_page_delta (diff_page_snapshots pages_before pages_after) ≡ true)
    ↔ ((slug : Text) → hash_of (get_key slug pages_before) ≡ hash_of (get_key slug pages_after))
is_noop-diff_page_snapshots_example =
    is_noop-diff_page_snapshots pages_before pages_after
      (two_slugs (codes "b") (codes "a") (unfold same in refl))
      (two_slugs (codes "c") (codes "a") (unfold same in refl))
