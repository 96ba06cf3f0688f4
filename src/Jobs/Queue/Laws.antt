-- ===== src/Jobs/Queue/Laws.antt =====
-- What the queue finds (jobs/queue.ts, jobs/records.ts).
use codealmanac.Prelude.{
  Bool, true, false, ◌≡◌, refl, sym, ap, subst, ◌⊎◌, inl, inr, none, some, List, [], ◌∷◌, ◌++◌, map,
  keep-In, In-keep, keys_of, get_key-In, get_key_of_In, Apart, Apart-snoc, nothing_before,
  All-of-In, Text, contains, contains_iff, In, In-append, In-append_left, In-append_right,
  NoRepeats, All, Bool-cases, arith,
}
use codealmanac.Jobs.Record.{JobRecord}
use codealmanac.Jobs.View.{job_ids, collect_job_records, insert_job, sort_jobs, list_job_records}
use codealmanac.Jobs.Store.{JobStore, read_job_record, stored_files}
use codealmanac.Jobs.Start.{is_queued}
use codealmanac.Jobs.Queue.{first_of, older, oldest_queued_job}

-- Each file is named after the record that it holds, and no two files have the same name.
pub record IsFiled (s : JobStore) : Type 0 where
  pub named : (path : Text) (job : JobRecord) → In (path, job) s.files → job.id ≡ path
  pub unique : NoRepeats (keys_of s.files)

-- Sorting keeps the elements.
module _ (precedes : JobRecord → JobRecord → Bool) where
  In-insert_job :
      (x job : JobRecord) (jobs : List JobRecord)
      → In x (insert_job precedes job jobs)
      → (x ≡ job) ⊎ In x jobs
  unfolding insert_job
  In-insert_job x job [] i = i
  In-insert_job x job (y ∷ jobs) i = elim (Bool-cases (precedes y job)) [
    | inr later ↦ rw later at i
    | inl earlier ↦
        let j : In x (y ∷ insert_job precedes job jobs) = rw earlier at i in
        elim j [
          | inl e ↦ inr (inl e)
          | inr k ↦ elim (In-insert_job x job jobs k) [ inl e ↦ inl e | inr l ↦ inr (inr l) ]
        ]
  ]

  insert_job-In :
      (x job : JobRecord) (jobs : List JobRecord)
      → (x ≡ job) ⊎ In x jobs
      → In x (insert_job precedes job jobs)
  unfolding insert_job
  insert_job-In x job [] i = i
  insert_job-In x job (y ∷ jobs) i = elim (Bool-cases (precedes y job)) [
    | inr later ↦ rw later i
    | inl earlier ↦ rw earlier (elim i [
      | inl e ↦ inr (insert_job-In x job jobs (inl e))
      | inr (inl e) ↦ inl e
      | inr (inr k) ↦ inr (insert_job-In x job jobs (inr k))
    ])
  ]

  pub In-sort_jobs :
      (x : JobRecord) (jobs : List JobRecord) → In x (sort_jobs precedes jobs) → In x jobs
  unfolding sort_jobs
  In-sort_jobs x [] i = i
  In-sort_jobs x (job ∷ jobs) i = elim (In-insert_job x job (sort_jobs precedes jobs) i) [
    | inl e ↦ inl e
    | inr k ↦ inr (In-sort_jobs x jobs k)
  ]

  pub sort_jobs-In :
      (x : JobRecord) (jobs : List JobRecord) → In x jobs → In x (sort_jobs precedes jobs)
  unfolding sort_jobs
  sort_jobs-In x (job ∷ jobs) (inl e) = insert_job-In x job (sort_jobs precedes jobs) (inl e)
  sort_jobs-In x (job ∷ jobs) (inr i) =
      insert_job-In x job (sort_jobs precedes jobs) (inr (sort_jobs-In x jobs i))
  sort_jobs-In x [] i = i

first_of-In : (job : JobRecord) (jobs : List JobRecord) → first_of jobs ≡ some job → In job jobs
first_of-In job [] h = absurd (cc h)
first_of-In job (x ∷ jobs) h = inl (cc h)

first_of-none : (x : JobRecord) (jobs : List JobRecord) → first_of jobs ≡ none → ¬ In x jobs
first_of-none x [] h i = i
first_of-none x (y ∷ jobs) h i = absurd (cc h)

collect-keeps :
    (x : JobRecord) (files : List (Text × JobRecord)) (jobs : List JobRecord)
    → In x jobs
    → In x (collect_job_records jobs (map (λ file. some file.1) files))
unfolding collect_job_records
collect-keeps x [] jobs i = i
collect-keeps x ((path, job) ∷ files) jobs i = elim (Bool-cases (contains job.id (job_ids jobs))) [
  | inl old ↦ rw (old, In) (collect-keeps x files jobs i)
  | inr new ↦
      rw (new, In) (collect-keeps x files (jobs ++ job ∷ []) (In-append_left x jobs (job ∷ []) i))
]

-- Nothing but what is in the files.
In-collect :
    (x : JobRecord) (files : List (Text × JobRecord)) (jobs : List JobRecord)
    → In x (collect_job_records jobs (map (λ file. some file.1) files))
    → In x jobs ⊎ ((path : Text) × In (path, x) files)
unfolding collect_job_records
In-collect x [] jobs i = inl i
In-collect x ((path, job) ∷ files) jobs i = elim (Bool-cases (contains job.id (job_ids jobs))) [
  | inl old ↦ elim (In-collect x files jobs (rw (old, In) at i)) [
    | inl k ↦ inl k
    | inr (p, k) ↦ inr (p, inr k)
  ]
  | inr new ↦ elim (In-collect x files (jobs ++ job ∷ []) (rw (new, In) at i)) [
    | inl k ↦ elim (In-append x jobs (job ∷ []) k) [
      | inl l ↦ inl l
      | inr (inl e) ↦ inr (path, inl (ap (λ j. (path, j)) e))
      | inr (inr nothing) ↦ absurd nothing
    ]
    | inr (p, k) ↦ inr (p, inr k)
  ]
]

job_ids-snoc :
    (jobs : List JobRecord) (job : JobRecord)
    → job_ids (jobs ++ job ∷ []) ≡ job_ids jobs ++ job.id ∷ []
job_ids-snoc [] job = refl
job_ids-snoc (x ∷ jobs) job = ap (λ ids. x.id ∷ ids) (job_ids-snoc jobs job)

-- With every file named after its record, and no name twice, every record is listed.
collect-In :
    (x : JobRecord) (path : Text) (files : List (Text × JobRecord)) (jobs : List JobRecord)
    → All (λ file. file.1.id ≡ file.0) files
    → NoRepeats (keys_of files)
    → Apart (job_ids jobs) (keys_of files)
    → In (path, x) files
    → In x (collect_job_records jobs (map (λ file. some file.1) files))
unfolding collect_job_records
collect-In x path [] jobs named unique apart i = absurd i
collect-In x path ((p, job) ∷ files) jobs (e, named) (new, unique) (fresh, apart) i =
    let unlisted : contains job.id (job_ids jobs) ≡ false = ground (
      arith,
      contains_iff job.id (job_ids jobs),
      λ (k : In job.id (job_ids jobs)). fresh (rw e at k),
    ) in
    let apart' : Apart (job_ids (jobs ++ job ∷ [])) (keys_of files) =
      rw (job_ids-snoc jobs job) (rw e (Apart-snoc (job_ids jobs) (keys_of files) p apart new)) in
    rw (unlisted, In)
      (elim i [
        | inl same_file ↦
            collect-keeps x files (jobs ++ job ∷ [])
              (In-append_right x jobs (job ∷ []) (inl (ap (λ file. file.1) same_file)))
        | inr later ↦ collect-In x path files (jobs ++ job ∷ []) named unique apart' later
      ])

All-named : (s : JobStore) → IsFiled s → All (λ file. file.1.id ≡ file.0) s.files
All-named s filed =
    All-of-In (λ file. file.1.id ≡ file.0) s.files (λ file i. filed.named file.0 file.1 i)

pub read_job_record-id :
    (path : Text) (job : JobRecord) (s : JobStore)
    → IsFiled s
    → read_job_record path s ≡ some job
    → job.id ≡ path
unfolding read_job_record
read_job_record-id path job s filed h = filed.named path job (get_key-In path job s.files h)

module _ (newer : JobRecord → JobRecord → Bool) (s : JobStore) (filed : IsFiled s) where
  pub oldest_queued_job-some :
      (job : JobRecord)
      → oldest_queued_job newer s ≡ some job
      → (read_job_record job.id s ≡ some job) × (is_queued job.status ≡ true)
  unfolding oldest_queued_job list_job_records read_job_record
  oldest_queued_job-some job h =
      let all = list_job_records newer (stored_files s) in
      let i = In-sort_jobs (older newer) job _ (first_of-In job _ h) in
      let (j, waits) = In-keep (λ x. is_queued x.status) job all i in
      elim (In-collect job s.files [] (In-sort_jobs newer job _ j)) [
        | inl nothing ↦ absurd nothing
        | inr (path, k) ↦
            let l : In (job.id, job) s.files =
              subst (λ p. In (p, job) s.files) (sym (filed.named path job k)) k in
            (get_key_of_In job.id job s.files filed.unique l, waits)
      ]

  pub oldest_queued_job-none :
      oldest_queued_job newer s ≡ none
      → (path : Text) (job : JobRecord) → read_job_record path s ≡ some job
      → is_queued job.status ≡ false
  unfolding oldest_queued_job list_job_records read_job_record
  oldest_queued_job-none h path job found = elim (Bool-cases (is_queued job.status)) [
    | inr rest ↦ rest
    | inl waits ↦
        let i =
          collect-In job path s.files [] (All-named s filed) filed.unique
            (nothing_before (keys_of s.files)) (get_key-In path job s.files found) in
        let j = keep-In (λ x. is_queued x.status) job _ (sort_jobs-In newer job _ i) waits in
        absurd (first_of-none job _ h (sort_jobs-In (older newer) job _ j))
  ]
