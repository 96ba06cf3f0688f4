-- ===== src/Sync/Lock/Fresh.antt =====
-- Another process at a lock that is not stale (sync/lock.ts).
use codealmanac.Prelude.{ℕ, zero, suc, Bool, true, false, ◌≡◌, refl, sym, subst}
use codealmanac.Sync.Lock.{
  Process, Point, starting, naming, checking, removing, retrying, renaming, holding, gave_up, made,
  OwnerFile, is_stale_repo_lock, step, steps,
}

-- The points at which a process has not yet found the lock stale or missing.
abbrev pub is_harmless : Point → Bool
is_harmless starting = true
is_harmless checking = true
is_harmless gave_up = true
is_harmless _ = false

-- However many actions a process takes that has not yet found a lock stale or missing: a directory
-- that is not stale for it stays as it is, and the process does not get to hold the lock.
pub steps-is_harmless :
    (alive : ℕ → Bool) (me : Process) (file : OwnerFile) (n : ℕ) (point : Point)
    → is_stale_repo_lock alive me.now (made file) ≡ false
    → is_harmless point ≡ true
    → (is_harmless (steps alive me n point (made file)).0 ≡ true)
      × ((steps alive me n point (made file)).1 ≡ made file)
unfolding steps step
steps-is_harmless alive me file zero point fresh h = (h, refl)
steps-is_harmless alive me file (suc n) starting fresh h =
    steps-is_harmless alive me file n checking fresh refl
steps-is_harmless alive me file (suc n) checking fresh h =
    let refused : step alive me checking (made file) ≡ (gave_up, made file) = rw fresh refl in
    subst
      (λ r.
        (is_harmless (steps alive me n r.0 r.1).0 ≡ true)
        × ((steps alive me n r.0 r.1).1 ≡ made file))
      (sym refused) (steps-is_harmless alive me file n gave_up fresh refl)
steps-is_harmless alive me file (suc n) gave_up fresh h =
    steps-is_harmless alive me file n gave_up fresh refl
steps-is_harmless alive me file (suc n) naming fresh h = absurd (cc h)
steps-is_harmless alive me file (suc n) removing fresh h = absurd (cc h)
steps-is_harmless alive me file (suc n) retrying fresh h = absurd (cc h)
steps-is_harmless alive me file (suc n) renaming fresh h = absurd (cc h)
steps-is_harmless alive me file (suc n) holding fresh h = absurd (cc h)
