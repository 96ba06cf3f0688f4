-- ===== src/Jobs/Worker/Drain.antt =====
-- The worker's loop over the queue comes to an end (jobs/worker.ts).
use codealmanac.Prelude.{
  ℕ, zero, suc, ◌<◌, Bool, true, false, ◌≡◌, refl, sym, ap, ◌∙◌, inl, inr, Option, none, some, List,
  Text, keep, length, length-keep-lt, length-keep-le, In, In-keys, length-keys_of, Option-cases,
  arith, keys_of, get_key-In,
}
use codealmanac.Jobs.Record.{JobRecord}
use codealmanac.Jobs.Store.{JobStore, read_job_record}
use codealmanac.Jobs.Start.{is_queued}
use codealmanac.Jobs.Queue.{oldest_queued_job}
use codealmanac.Jobs.Queue.Laws.{IsFiled, oldest_queued_job-some, oldest_queued_job-none}
use codealmanac.Jobs.Worker.{Round, work_on, drain}
use codealmanac.Jobs.Worker.Calm.{
  Later, IsCalmRound, IsOver, Later-refl, Later-trans, final-not_queued,
}
use codealmanac.Jobs.Worker.Rounds.{work_on-Finishes, Finishes-Later}

abbrev waits : Option JobRecord → Bool
waits none = false
waits (some job) = is_queued job.status

abbrev waits_at : JobStore → Text → Bool
waits_at s path = waits (read_job_record path s)

-- The queued files among `paths`.
waiting : List Text → JobStore → ℕ
waiting paths s = length (keep (waits_at s) paths)

waits-Later : (a b : Option JobRecord) → Later a b → waits b ≡ true → waits a ≡ true
waits-Later none none h k = cc k
waits-Later none (some b) h k = cc (h, k)
waits-Later (some a) none h k = absurd h
waits-Later (some a) (some b) (inl e) k = sym (ap is_queued e) ∙ k
waits-Later (some a) (some b) (inr e) k = cc (k, final-not_queued b.status e)

abbrev Evolves : JobStore → JobStore → Type 0
Evolves s t = (path : Text) → Later (read_job_record path s) (read_job_record path t)

waiting-lt :
    (paths : List Text) (s t : JobStore) (path : Text)
    → Evolves s t
    → waits_at s path ≡ true
    → waits_at t path ≡ false
    → In path paths
    → waiting paths t < waiting paths s
unfolding waiting
waiting-lt paths s t path evolves before after i =
    length-keep-lt (waits_at t) (waits_at s)
      (λ p h. waits-Later (read_job_record p s) (read_job_record p t) (evolves p) h) path paths i
      after before

-- The end of the loop.
record Drained (newer : JobRecord → JobRecord → Bool) (s t : JobStore) : Type 0 where
  pub filed : IsFiled t
  pub evolves : Evolves s t
  pub nothing_queued : oldest_queued_job newer t ≡ none

module _ (newer : JobRecord → JobRecord → Bool) (rounds : ℕ → Round)
    (calm : (n : ℕ) → IsCalmRound (rounds n)) where
  drain_ends :
      (fuel : ℕ) (paths : List Text) (s : JobStore)
      → IsFiled s
      → ((path : Text) → waits_at s path ≡ true → In path paths)
      → waiting paths s < fuel
      → (end : JobStore) × (drain newer rounds fuel s ≡ some end) × Drained newer s end
  unfolding drain
  drain_ends zero paths s filed covered enough = absurd (omega arith)
  drain_ends (suc fuel) paths s filed covered enough =
      elim (Option-cases (oldest_queued_job newer s)) [
        | inl e ↦ (
          s,
          rw (e, drain) refl,
          record {
            filed = filed;
            evolves = λ p. Later-refl (read_job_record p s);
            nothing_queued = e;
          },
        )
        | inr (job, e) ↦
            let (found, queued_here) = oldest_queued_job-some newer s filed job e in
            let round = rounds fuel in
            let t = work_on round job s in
            let finishes = work_on-Finishes round job s (calm fuel) filed found queued_here in
            let evolves = Finishes-Later job s t finishes found in
            let (last, over, final) = finishes.over in
            let before : waits_at s job.id ≡ true = rw found queued_here in
            let after : waits_at t job.id ≡ false = rw over (final-not_queued last.status final) in
            let less = waiting-lt paths s t job.id evolves before after (covered job.id before) in
            let (end, ends, drained) =
              drain_ends fuel paths t finishes.elsewhere.filed
                (λ p h.
                  covered p (waits-Later (read_job_record p s) (read_job_record p t) (evolves p) h))
                (omega arith) in
            (
              end,
              rw (e, drain) ends,
              record {
                filed = drained.filed;
                evolves = λ p.
                    Later-trans (read_job_record p s) (read_job_record p t) (read_job_record p end)
                      (evolves p) (drained.evolves p);
                nothing_queued = drained.nothing_queued;
              },
            )
      ]

In-waiting : (s : JobStore) (path : Text) → waits_at s path ≡ true → In path (keys_of s.files)
unfolding read_job_record
In-waiting s path h = elim (Option-cases (read_job_record path s)) [
  | inl e ↦ cc (ap waits e, h)
  | inr (job, e) ↦ In-keys path job s.files (get_key-In path job s.files e)
]

-- Not queued at the end, and no way back: a job that was queued has come to its end.
IsOver-of_Later :
    (path : Text) (job : JobRecord) (t : JobStore)
    → is_queued job.status ≡ true
    → Later (some job) (read_job_record path t)
    → waits_at t path ≡ false
    → IsOver path t
IsOver-of_Later path job t h later rest = elim (Option-cases (read_job_record path t)) [
  | inl e ↦ absurd (let k : ⊥ = rw e at later in k)
  | inr (last, e) ↦
      let stopped : is_queued last.status ≡ false = rw e at rest in
      elim (let k : Later (some job) (some last) = rw e at later in k) [
        | inl kept ↦ cc (ap is_queued kept, h, stopped)
        | inr final ↦ (last, e, final)
      ]
]

rests :
    (newer : JobRecord → JobRecord → Bool) (s end : JobStore)
    → Drained newer s end
    → (path : Text) → waits_at end path ≡ false
rests newer s end drained path = elim (Option-cases (read_job_record path end)) [
  | inl e ↦ ap waits e
  | inr (job, e) ↦
      ap waits e ∙ oldest_queued_job-none newer end drained.filed drained.nothing_queued path job e
]

-- In a store whose files are named after their records, with others that only finish or cancel
-- jobs beside it, the loop ends after at most one round for each file: nothing is queued then, and
-- each job that was queued has a final status.
pub drain-IsOver :
    (newer : JobRecord → JobRecord → Bool) (rounds : ℕ → Round) (s : JobStore) (path : Text)
    (job : JobRecord)
    → ((n : ℕ) → IsCalmRound (rounds n))
    → IsFiled s
    → read_job_record path s ≡ some job
    → is_queued job.status ≡ true
    → (end : JobStore) × (drain newer rounds (suc (length s.files)) s ≡ some end)
      × (oldest_queued_job newer end ≡ none)
      × IsOver path end
drain-IsOver newer rounds s path job calm filed found queued_here =
    let enough : waiting (keys_of s.files) s < suc (length s.files) =
      unfold waiting in
      omega (arith, length-keep-le (waits_at s) (keys_of s.files), length-keys_of s.files) in
    let (end, ends, drained) =
      drain_ends newer rounds calm (suc (length s.files)) (keys_of s.files) s filed (In-waiting s)
        enough in
    let later : Later (some job) (read_job_record path end) = rw found at (drained.evolves path) in
    (
      end,
      ends,
      drained.nothing_queued,
      IsOver-of_Later path job end queued_here later (rests newer s end drained path),
    )
