-- ===== src/Sync/Lock/Alone.antt =====
-- `acquireRepoSyncLock` (sync/lock.ts) without other processes.
use codealmanac.Prelude.{ℕ, Bool, ◌≡◌, refl, if◌then◌else◌, Bool-cases, inl, inr}
use codealmanac.Sync.Lock.{
  Process, holding, gave_up, LockDir, free, made, owned_by, is_stale_repo_lock, step, steps,
  acquire_repo_sync_lock,
}

-- Without other processes, an attempt ends within five actions: if there is no lock or a stale one,
-- the process holds the lock and is its owner; otherwise it has given up, and the lock is as it
-- was.
pub acquire_repo_sync_lock_alone :
    (alive : ℕ → Bool) (me : Process) (lock : LockDir)
    → acquire_repo_sync_lock alive me lock
      ≡ (if is_stale_repo_lock alive me.now lock then (holding, owned_by me) else (gave_up, lock))
unfolding acquire_repo_sync_lock steps step
acquire_repo_sync_lock_alone alive me free = unfold is_stale_repo_lock in refl
acquire_repo_sync_lock_alone alive me (made file) =
    elim (Bool-cases (is_stale_repo_lock alive me.now (made file))) [
      | inl stale ↦ rw stale refl
      | inr fresh ↦ rw fresh refl
    ]
