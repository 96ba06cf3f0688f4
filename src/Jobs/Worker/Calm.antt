-- ===== src/Jobs/Worker/Calm.antt =====
-- What others may do to the store while a worker runs (jobs/worker.ts).
use codealmanac.Prelude.{
  true, false, ◌≡◌, ◌≢◌, refl, sym, ap, ◌∙◌, ◌⊎◌, inl, inr, Option, none, some, Text, same,
  same_sound, same_iff, Bool-cases, arith, set_key, subst, get_key-set_key, set_key-NoRepeats,
  get_key_of_In,
}
use codealmanac.Jobs.Record.{JobStatus, JobRecord, is_final}
use codealmanac.Jobs.Store.{JobStore, read_job_record, write_job_record}
use codealmanac.Jobs.Execution.Laws.{read-write_job_record}
use codealmanac.Jobs.Start.{is_queued}
use codealmanac.Jobs.Queue.Laws.{IsFiled, read_job_record-id}
use codealmanac.Jobs.Worker.{Round, spec_read, spec_threw}

-- A record stays as it is or becomes final, and a new one is not queued.
abbrev pub Later : Option JobRecord → Option JobRecord → Type 0
Later none none = Unit
Later none (some b) = is_queued b.status ≡ false
Later (some a) none = ⊥
Later (some a) (some b) = (b.status ≡ a.status) ⊎ (is_final b.status ≡ true)

-- What others may do while a worker holds the lock: finish and cancel jobs, start and run jobs in
-- the foreground, write anything else into a record.
pub record IsCalm (f : JobStore → JobStore) : Type 0 where
  pub filed : (s : JobStore) → IsFiled s → IsFiled (f s)
  pub later :
      (s : JobStore) (path : Text) → Later (read_job_record path s) (read_job_record path (f s))

abbrev pub IsCalmRound : Round → Type 0
IsCalmRound (spec_read world) = IsCalm world.at_claim × IsCalm world.execution.meanwhile
IsCalmRound (spec_threw now error) = Unit

pub final-not_queued : (status : JobStatus) → is_final status ≡ true → is_queued status ≡ false
unfolding is_final
final-not_queued JobStatus.queued h = absurd (cc h)
final-not_queued JobStatus.running h = refl
final-not_queued JobStatus.done h = refl
final-not_queued JobStatus.failed h = refl
final-not_queued JobStatus.cancelled h = refl

pub Later-refl : (a : Option JobRecord) → Later a a
Later-refl none = tt
Later-refl (some a) = inl refl

pub Later-trans : (a b c : Option JobRecord) → Later a b → Later b c → Later a c
Later-trans none none none h k = tt
Later-trans none none (some c) h k = k
Later-trans none (some b) none h k = absurd k
Later-trans none (some b) (some c) h (inl e) = ap is_queued e ∙ h
Later-trans none (some b) (some c) h (inr e) = final-not_queued c.status e
Later-trans (some a) none c h k = absurd h
Later-trans (some a) (some b) none h k = absurd k
Later-trans (some a) (some b) (some c) (inl d) (inl e) = inl (e ∙ d)
Later-trans (some a) (some b) (some c) (inr d) (inl e) = inr (ap is_final e ∙ d)
Later-trans (some a) (some b) (some c) h (inr e) = inr e

-- The store at every other file, and the file itself at the end.
pub record Elsewhere (path : Text) (s t : JobStore) : Type 0 where
  pub filed : IsFiled t
  pub others : (p : Text) → p ≢ path → Later (read_job_record p s) (read_job_record p t)

abbrev pub IsOver : Text → JobStore → Type 0
IsOver path t =
    (last : JobRecord) × (read_job_record path t ≡ some last) × (is_final last.status ≡ true)

Elsewhere-refl : (path : Text) (s : JobStore) → IsFiled s → Elsewhere path s s
Elsewhere-refl path s filed = record {
  filed = filed;
  others = λ p away. Later-refl (read_job_record p s);
}

pub Elsewhere-trans :
    (path : Text) (s t u : JobStore) → Elsewhere path s t → Elsewhere path t u → Elsewhere path s u
Elsewhere-trans path s t u h k = record {
  filed = k.filed;
  others = λ p away.
      Later-trans (read_job_record p s) (read_job_record p t) (read_job_record p u)
        (h.others p away) (k.others p away);
}

pub calm-Elsewhere :
    (path : Text) (f : JobStore → JobStore) (s : JobStore)
    → IsCalm f
    → IsFiled s
    → Elsewhere path s (f s)
calm-Elsewhere path f s calm filed = record {
  filed = calm.filed s filed;
  others = λ p away. calm.later s p;
}

pub read-write_other :
    (path p : Text) (job : JobRecord) (s : JobStore)
    → p ≢ path
    → read_job_record p (write_job_record path job s) ≡ read_job_record p s
unfolding read_job_record write_job_record
read-write_other path p job s away =
    ground (arith, get_key-set_key path p job s.files, same_iff path p)

module _ (path : Text) (job : JobRecord) (s : JobStore) (filed : IsFiled s)
    (own : job.id ≡ path) where
  written_name :
      (p : Text) (x : JobRecord)
      → read_job_record p (write_job_record path job s) ≡ some x
      → x.id ≡ p
  written_name p x h = elim (Bool-cases (same path p)) [
    | inl here ↦
        let e : path ≡ p = same_sound path p here in
        let found : read_job_record p (write_job_record path job s) ≡ some job =
          subst (λ q. read_job_record q (write_job_record path job s) ≡ some job) e
            (read-write_job_record path job s) in
        let x_is : x ≡ job = cc (found, h) in ap (λ j. j.id) x_is ∙ own ∙ e
    | inr away ↦
        let kept = read-write_other path p job s (λ e. cc (away, (same_iff path p).1 (sym e))) in
        read_job_record-id p x s filed (sym kept ∙ h)
  ]

  write-IsFiled : IsFiled (write_job_record path job s)
  unfolding write_job_record read_job_record
  write-IsFiled =
      let unique = set_key-NoRepeats path job s.files filed.unique in
      record {
        named = λ p x i. written_name p x (get_key_of_In p x (set_key path job s.files) unique i);
        unique = unique;
      }

  pub write-Elsewhere : Elsewhere path s (write_job_record path job s)
  write-Elsewhere = record {
    filed = write-IsFiled;
    others = λ p away. rw (read-write_other path p job s away) (Later-refl (read_job_record p s));
  }
