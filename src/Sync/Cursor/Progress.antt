-- ===== src/Sync/Cursor/Progress.antt =====
-- `evaluateSyncCursor` before and after an absorb job (sync/sweep.ts).
use codealmanac.Prelude.{
  ℕ, ◌+◌, ◌<◌, ◌≡◌, refl, ap, Option, some, List, [], ◌∷◌, ◌++◌, Text, same_refl, arith, length,
  length-append, take,
}
use codealmanac.Jobs.Record.{JobRecord, JobStatus}
use codealmanac.Sync.Ledger.{LedgerEntry, sync_cursor, count_lines}
use codealmanac.Sync.Ledger.Reconcile.{reconcile_entry}
use codealmanac.Sync.Cursor.{
  snapshot_of, skip, ready, evaluate_sync_cursor, mark_pending, unchanged,
}

pub take-length-append : (xs ys : List ℕ) → take (length xs) (xs ++ ys) ≡ xs
take-length-append [] ys = refl
take-length-append (x ∷ xs) ys = ap (λ t. x ∷ t) (take-length-append xs ys)

module _ (sha256 : List ℕ → Text) where
  -- The entry after a job that was started on `content` has ended with success.
  abbrev pub absorbed :
      Text → Text → LedgerEntry → List ℕ → Text → (Text → Option JobRecord) → LedgerEntry
  absorbed started ended entry content job_id jobs =
      reconcile_entry ended jobs (mark_pending sha256 started entry (snapshot_of content) job_id)

  -- After the job for a transcript has ended with success, the same transcript is skipped as
  -- unchanged, and a longer one that begins with it is handed over from the line after its last
  -- line on, to its own last line.
  pub evaluate_sync_cursor-absorbed :
      (started ended : Text) (entry : LedgerEntry) (content more : List ℕ) (job_id : Text)
      (jobs : Text → Option JobRecord) (job : JobRecord)
      → jobs job_id ≡ some job
      → job.status ≡ JobStatus.done
      → 0 < length more
      → (evaluate_sync_cursor sha256
            (absorbed started ended entry content job_id jobs)
            (snapshot_of content)
          ≡ skip unchanged)
        × (evaluate_sync_cursor sha256
              (absorbed started ended entry content job_id jobs)
              (snapshot_of (content ++ more))
            ≡ ready (count_lines content + 1) (count_lines (content ++ more)))
  unfolding evaluate_sync_cursor snapshot_of reconcile_entry mark_pending sync_cursor
  evaluate_sync_cursor-absorbed started ended entry content more job_id jobs job found finished
        nonempty =
      let head = sha256 content in
      ground (arith, take-length-append content more, length-append content more, same_refl head)
