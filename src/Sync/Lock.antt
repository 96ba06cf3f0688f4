-- ===== src/Sync/Lock.antt =====
-- The sync lock of a repository (sync/lock.ts): a directory that `mkdir` makes or refuses to make,
-- with the owner's file in it.
--
-- `mkdir` is taken to fail only if the directory is there; the legacy directory is left out.
pub mod Alone
pub mod Fresh
mod Tests
use codealmanac.Prelude.{
  ℕ, zero, suc, ◌+◌, Bool, true, false, not, ◌&&◌, Option, none, some, if◌then◌else◌, ltb,
}

-- owner.json: absent, or the fields that are a date and a number.
pub data OwnerFile : Type 0 where
  absent : OwnerFile
  owner : Option ℕ → Option ℕ → OwnerFile

pub data LockDir : Type 0 where
  free : LockDir
  made : OwnerFile → LockDir

-- A process that wants the lock, and its `now`.
pub record Process : Type 0 where
  pub pid : ℕ
  pub now : ℕ

abbrev pub sync_lock_stale_ms : ℕ
sync_lock_stale_ms = 3600000

abbrev pub stale_owner : (ℕ → Bool) → Option ℕ → Bool
stale_owner alive none = false
stale_owner alive (some pid) = not (ltb 0 pid && alive pid)

-- `isStaleRepoLock`; `alive` says which processes a signal reaches.
unfoldable pub is_stale_repo_lock : (ℕ → Bool) → ℕ → LockDir → Bool
is_stale_repo_lock alive now free = true
is_stale_repo_lock alive now (made absent) = true
is_stale_repo_lock alive now (made (owner none pid)) = true
is_stale_repo_lock alive now (made (owner (some started) pid)) =
    if ltb (started + sync_lock_stale_ms) now then true else stale_owner alive pid

abbrev pub owned_by : Process → LockDir
owned_by me = made (owner (some me.now) (some me.pid))

-- Where a process stands in `acquireRepoSyncLock`.
pub data Point : Type 0 where
  -- before the first `mkdir`
  starting : Point
  -- after the first `mkdir`, before owner.json is written
  naming : Point
  -- before the owner is read
  checking : Point
  -- before the stale directory is removed
  removing : Point
  -- before the second `mkdir`
  retrying : Point
  -- after the second `mkdir`, before owner.json is written
  renaming : Point
  holding gave_up : Point

-- The next action of a process that tries to acquire the lock. Where the directory is gone before
-- owner.json is written, the write fails, and with it `tryCreateRepoLock`.
unfoldable pub step : (ℕ → Bool) → Process → Point → LockDir → Point × LockDir
unfolding is_stale_repo_lock
step alive me starting free = (naming, made absent)
step alive me starting (made file) = (checking, made file)
step alive me naming free = (checking, free)
step alive me naming (made file) = (holding, owned_by me)
step alive me checking lock =
    if is_stale_repo_lock alive me.now lock then (removing, lock) else (gave_up, lock)
step alive me removing lock = (retrying, free)
step alive me retrying free = (renaming, made absent)
step alive me retrying (made file) = (gave_up, made file)
step alive me renaming free = (gave_up, free)
step alive me renaming (made file) = (holding, owned_by me)
step alive me holding lock = (holding, lock)
step alive me gave_up lock = (gave_up, lock)

-- `n` actions, with no other process in between.
unfoldable pub steps : (ℕ → Bool) → Process → ℕ → Point → LockDir → Point × LockDir
unfolding step
steps alive me zero point lock = (point, lock)
steps alive me (suc n) point lock =
    let (next_point, next_lock) = step alive me point lock in steps alive me n next_point next_lock

-- The longest attempt: `mkdir`, check, removal, `mkdir`, owner.
unfoldable pub acquire_repo_sync_lock : (ℕ → Bool) → Process → LockDir → Point × LockDir
unfolding steps
acquire_repo_sync_lock alive me lock = steps alive me 5 starting lock

-- Two processes, one action of the first (`true`) or of the second at a time.
pub record Pair : Type 0 where
  pub first : Point
  pub second : Point
  pub lock : LockDir

unfoldable pub pair_step : (ℕ → Bool) → Process → Process → Bool → Pair → Pair
unfolding step
pair_step alive one two true s =
    let (point, lock) = step alive one s.first s.lock in
    record { first = point; second = s.second; lock = lock }
pair_step alive one two false s =
    let (point, lock) = step alive two s.second s.lock in
    record { first = s.first; second = point; lock = lock }
