-- ===== src/Review/Commands/States.antt =====
-- The states of a review item: open, decided, applied, and back to open.
use codealmanac.Prelude.{
  Bool, true, false, not, ◌≡◌, subst, refl, sym, inl, inr, Option, none, some, List, [], ◌∷◌, Text,
  same, All, All-append, Bool-cases,
}
use codealmanac.Review.Item.{ReviewStatus, opened, applied, ReviewItem}
use codealmanac.Review.Store.RoundTrip.{IsFilled}
use codealmanac.Review.Commands.{
  Input, ReviewRun, read_markdown, run_review_add, find_item, update_item, decide, apply, reopen,
  run_review_decide, run_review_apply, run_review_reopen,
}
use codealmanac.Review.Commands.Written.{
  IsUpdate, run_review_decide-written, run_review_apply-written, run_review_reopen-written,
  run_review_add-written,
}

abbrev is_set : Option Text → Bool
is_set none = false
is_set (some s) = true

abbrev is_opened : ReviewStatus → Bool
is_opened opened = true
is_opened _ = false

abbrev is_applied : ReviewStatus → Bool
is_applied applied = true
is_applied _ = false

-- The item has a decision and its time exactly when it is not open, and an application and its
-- time exactly when it is applied.
pub record IsConsistent (item : ReviewItem) : Type 0 where
  pub decision : is_set item.decision ≡ not (is_opened item.status)
  pub decided_at : is_set item.decided_at ≡ not (is_opened item.status)
  pub application : is_set item.application ≡ is_applied item.status
  pub applied_at : is_set item.applied_at ≡ is_applied item.status

-- The steps from one list of items to the next, at times that are not blank.
pub data Step : List ReviewItem → List ReviewItem → Type 0 where
  add :
      {items next : List ReviewItem} {run : ReviewRun} (options : Input) (now : Text)
      → IsFilled now
      → run_review_add options now items ≡ some run
      → run.written ≡ some next
      → Step items next
  decide_item :
      {items next : List ReviewItem} (options : Input) (id now : Text)
      → (run_review_decide options id now items).written ≡ some next
      → Step items next
  apply_item :
      {items next : List ReviewItem} (options : Input) (id now : Text)
      → (run_review_apply options id now items).written ≡ some next
      → Step items next
  reopen_item :
      {items next : List ReviewItem} (options : Input) (id now : Text)
      → (run_review_reopen options id now items).written ≡ some next
      → Step items next

-- The files that the commands can make of no file.
pub data Reachable : List ReviewItem → Type 0 where
  no_file : Reachable []
  after : {items later : List ReviewItem} → Reachable items → Step items later → Reachable later

-- A property of every item outlives a change that keeps it for the item that is found.
pub All-update_item :
    (P : ReviewItem → Type 0) (change : ReviewItem → ReviewItem) (items : List ReviewItem)
    (id : Text) (item : ReviewItem)
    → find_item items id ≡ some item
    → (P item → P (change item))
    → All P items
    → All P (update_item change items id)
unfolding update_item find_item
All-update_item P change [] id item e f h = h
All-update_item P change (x ∷ items) id item e f (h, hs) = elim (Bool-cases (same x.id id)) [
  | inl own ↦ rw own (subst (λ y. P y → P (change y)) (sym (cc (rw own at e))) f h, hs)
  | inr other ↦ rw other (h, All-update_item P change items id item (rw other at e) f hs)
]

All-changed :
    (P : ReviewItem → Type 0) (change : ReviewItem → ReviewItem) (items next : List ReviewItem)
    (id : Text) (item : ReviewItem)
    → IsUpdate change items next id item
    → (P item → P (change item))
    → All P items
    → All P next
All-changed P change items next id item u f h =
    rw u.result (All-update_item P change items id item u.found f h)

Step-IsConsistent :
    {items next : List ReviewItem}
    → Step items next
    → All IsConsistent items
    → All IsConsistent next
Step-IsConsistent {items} {next} (add {run = run} options now at h k) hs =
    let (markdown, id, _, _, _, result) = run_review_add-written options now items next run h k in
    rw result (
      All-append IsConsistent items _ hs
        (record { decision = refl; decided_at = refl; application = refl; applied_at = refl }, tt))
Step-IsConsistent {items} {next} (decide_item options id now h) hs =
    let (markdown, item, _, u) = run_review_decide-written options id now items next h in
    All-changed IsConsistent (decide markdown now) items next id item u
      (λ c. record { decision = refl; decided_at = refl; application = refl; applied_at = refl }) hs
Step-IsConsistent {items} {next} (apply_item options id now h) hs =
    let (markdown, item, state, u) = run_review_apply-written options id now items next h in
    All-changed IsConsistent (apply markdown now) items next id item u
      (λ c. record {
        decision = rw state at c.decision;
        decided_at = rw state at c.decided_at;
        application = refl;
        applied_at = refl;
      })
      hs
Step-IsConsistent {items} {next} (reopen_item options id now h) hs =
    let (item, u) = run_review_reopen-written options id now items next h in
    All-changed IsConsistent (reopen (read_markdown options) now) items next id item u
      (λ c. record { decision = refl; decided_at = refl; application = refl; applied_at = refl }) hs

-- In every file that the review commands can make of no file: an item has a decision and its time
-- exactly when it is not open, and an application and its time exactly when it is applied.
pub Reachable-IsConsistent : {items : List ReviewItem} → Reachable items → All IsConsistent items
Reachable-IsConsistent no_file = tt
Reachable-IsConsistent (after h step) = Step-IsConsistent step (Reachable-IsConsistent h)
