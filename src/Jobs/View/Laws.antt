-- ===== src/Jobs/View/Laws.antt =====
-- The list and the view of job records (jobs/records.ts).
use codealmanac.Prelude.{
  ℕ, ◌-◌, Bool, true, ◌≡◌, refl, sym, ◌⊎◌, inl, inr, Option, none, some, List, [], ◌∷◌, ◌++◌, Text,
  contains, contains_iff, In, NoRepeats, NoRepeats-snoc, arith, Bool-cases, ap,
}
use codealmanac.Jobs.Record.{JobStatus, JobRecord, JobReport, is_final, finish_job_record}
use codealmanac.Jobs.View.{
  job_ids, collect_job_records, insert_job, sort_jobs, list_job_records, shown, display_status_of,
  to_job_view,
}

-- A finished record is shown with its own status and with the time between its start and its end,
-- whatever the clock and the processes say by then.
pub to_job_view-finish_job_record :
    (job : JobRecord) (status : JobStatus) (started finished now : ℕ) (report : JobReport)
    (alive : ℕ → Bool)
    → is_final status ≡ true
    → job.started_at ≡ some started
    → ((to_job_view (finish_job_record job status finished report) now alive).display_status
        ≡ shown status)
      × ((to_job_view (finish_job_record job status finished report) now alive).elapsed_ms
          ≡ finished - started)
unfolding to_job_view finish_job_record is_final display_status_of
to_job_view-finish_job_record job JobStatus.queued started finished now report alive final at =
    absurd (cc final)
to_job_view-finish_job_record job JobStatus.running started finished now report alive final at =
    absurd (cc final)
to_job_view-finish_job_record job JobStatus.done started finished now report alive final at =
    (refl, rw at refl)
to_job_view-finish_job_record job JobStatus.failed started finished now report alive final at =
    (refl, rw at refl)
to_job_view-finish_job_record job JobStatus.cancelled started finished now report alive final at =
    (refl, rw at refl)

job_ids-snoc :
    (jobs : List JobRecord) (job : JobRecord)
    → job_ids (jobs ++ job ∷ []) ≡ job_ids jobs ++ job.id ∷ []
job_ids-snoc [] job = refl
job_ids-snoc (x ∷ jobs) job = ap (λ ids. x.id ∷ ids) (job_ids-snoc jobs job)

collect_job_records-NoRepeats :
    (files : List (Option JobRecord)) (jobs : List JobRecord)
    → NoRepeats (job_ids jobs)
    → NoRepeats (job_ids (collect_job_records jobs files))
unfolding collect_job_records
collect_job_records-NoRepeats [] jobs h = h
collect_job_records-NoRepeats (none ∷ rest) jobs h = collect_job_records-NoRepeats rest jobs h
collect_job_records-NoRepeats (some job ∷ rest) jobs h =
    elim (Bool-cases (contains job.id (job_ids jobs))) [
      | inl old ↦ rw old (collect_job_records-NoRepeats rest jobs h)
      | inr new ↦ rw new (
          collect_job_records-NoRepeats rest (jobs ++ job ∷ []) (
            rw (job_ids-snoc jobs job) (
              NoRepeats-snoc (job_ids jobs) job.id h
                (λ i. ground (arith, contains_iff job.id (job_ids jobs))))))
    ]

module _ (precedes : JobRecord → JobRecord → Bool) where
  In-of_insert_job :
      (id : Text) (job : JobRecord) (jobs : List JobRecord)
      → In id (job_ids (insert_job precedes job jobs))
      → (id ≡ job.id) ⊎ In id (job_ids jobs)
  unfolding insert_job
  In-of_insert_job id job [] i = i
  In-of_insert_job id job (x ∷ jobs) i = elim (Bool-cases (precedes x job)) [
    | inr later ↦ rw later at i
    | inl earlier ↦
        let j : In id (x.id ∷ job_ids (insert_job precedes job jobs)) = rw earlier at i in
        elim j [
          | inl e ↦ inr (inl e)
          | inr k ↦ elim (In-of_insert_job id job jobs k) [ inl e ↦ inl e | inr l ↦ inr (inr l) ]
        ]
  ]

  insert_job-NoRepeats :
      (job : JobRecord) (jobs : List JobRecord)
      → ¬ In job.id (job_ids jobs)
      → NoRepeats (job_ids jobs)
      → NoRepeats (job_ids (insert_job precedes job jobs))
  unfolding insert_job
  insert_job-NoRepeats job [] new h = ((λ i. i), tt)
  insert_job-NoRepeats job (x ∷ jobs) new (apart, h) = elim (Bool-cases (precedes x job)) [
    | inr later ↦ rw later (new, (apart, h))
    | inl earlier ↦ rw earlier (
      (λ i. elim (In-of_insert_job x.id job jobs i) [
        | inl e ↦ new (inl (sym e))
        | inr k ↦ apart k
      ]),
      insert_job-NoRepeats job jobs (λ i. new (inr i)) h,
    )
  ]

  In-of_sort_jobs :
      (id : Text) (jobs : List JobRecord)
      → In id (job_ids (sort_jobs precedes jobs))
      → In id (job_ids jobs)
  unfolding sort_jobs
  In-of_sort_jobs id [] i = i
  In-of_sort_jobs id (job ∷ jobs) i = elim (In-of_insert_job id job (sort_jobs precedes jobs) i) [
    | inl e ↦ inl e
    | inr k ↦ inr (In-of_sort_jobs id jobs k)
  ]

  sort_jobs-NoRepeats :
      (jobs : List JobRecord)
      → NoRepeats (job_ids jobs)
      → NoRepeats (job_ids (sort_jobs precedes jobs))
  unfolding sort_jobs
  sort_jobs-NoRepeats [] h = tt
  sort_jobs-NoRepeats (job ∷ jobs) (apart, h) =
      insert_job-NoRepeats job (sort_jobs precedes jobs)
        (λ i. apart (In-of_sort_jobs job.id jobs i)) (sort_jobs-NoRepeats jobs h)

  -- Whatever the files hold, no two listed job records have the same id, even if a record is in
  -- both directories.
  pub list_job_records-NoRepeats :
      (files : List (Option JobRecord)) → NoRepeats (job_ids (list_job_records precedes files))
  unfolding list_job_records
  list_job_records-NoRepeats files =
      sort_jobs-NoRepeats (collect_job_records [] files) (collect_job_records-NoRepeats files [] tt)
