-- ===== src/Sync/Lock/Tests.antt =====
-- Two processes at the lock, and its laws at concrete inputs.
use codealmanac.Prelude.{ℕ, Bool, true, false, ◌≡◌, refl, some, List, [], ◌∷◌, if◌then◌else◌}
use codealmanac.Sync.Lock.{
  Process, starting, holding, gave_up, free, owner, owned_by, is_stale_repo_lock, step, steps,
  acquire_repo_sync_lock, Pair, pair_step,
}
use codealmanac.Sync.Lock.Alone.{acquire_repo_sync_lock_alone}
use codealmanac.Sync.Lock.Fresh.{is_harmless, steps-is_harmless}

abbrev all_alive : ℕ → Bool
all_alive pid = true

abbrev one : Process
one = record { pid = 11; now = 5000 }

abbrev two : Process
two = record { pid = 12; now = 6000 }

abbrev run : List Bool → Pair → Pair
run [] s = s
run (who ∷ rest) s = run rest (pair_step all_alive one two who s)

-- The second process finds the first one's directory before its owner file, takes it for stale,
-- and removes it after the owner file is written: both hold the lock.
both_hold :
    run
      (true ∷ false ∷ false ∷ true ∷ false ∷ false ∷ false ∷ [])
      (record { first = starting; second = starting; lock = free })
    ≡ record { first = holding; second = holding; lock = owned_by two }
unfolding pair_step step is_stale_repo_lock
both_hold = refl

acquire_repo_sync_lock_alone_example : acquire_repo_sync_lock all_alive two (owned_by one) ≡ (
    if is_stale_repo_lock all_alive two.now (owned_by one)
    then (holding, owned_by two)
    else (gave_up, owned_by one))
acquire_repo_sync_lock_alone_example = acquire_repo_sync_lock_alone all_alive two (owned_by one)

steps-is_harmless_example :
    (is_harmless (steps all_alive two 9 starting (owned_by one)).0 ≡ true)
    × ((steps all_alive two 9 starting (owned_by one)).1 ≡ owned_by one)
unfolding is_stale_repo_lock
steps-is_harmless_example =
    steps-is_harmless all_alive two (owner (some 5000) (some 11)) 9 starting refl refl
