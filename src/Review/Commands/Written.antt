-- ===== src/Review/Commands/Written.antt =====
-- When the review commands write, and what (cli/commands/review.ts).
use codealmanac.Prelude.{
  false, ◌≡◌, ◌≢◌, refl, sym, inl, inr, some, List, [], ◌∷◌, ◌++◌, Text, is_empty, Bool-cases,
  Option-cases,
}
use codealmanac.Review.Item.{
  ReviewStatus, opened, decided, applied, ReviewItem, summary_from_markdown, next_review_id,
}
use codealmanac.Review.Commands.{
  Input, item_added, ReviewRun, read_markdown, new_item, add_item, run_review_add, find_item,
  update_item, decide, apply, reopen, decide_found, run_review_decide, apply_found,
  run_review_apply, reopen_found, run_review_reopen,
}

-- What a command that has found its item writes.
pub record IsUpdate (change : ReviewItem → ReviewItem) (items next : List ReviewItem) (id : Text)
    (item : ReviewItem) : Type 0 where
  pub found : find_item items id ≡ some item
  pub result : next ≡ update_item change items id

decide_found-written :
    (markdown now : Text) (items next : List ReviewItem) (id : Text) (item : ReviewItem)
    (status : ReviewStatus)
    → item.status ≡ status
    → (decide_found markdown now items id (some item)).written ≡ some next
    → (item.status ≢ applied) × (next ≡ update_item (decide markdown now) items id)
unfolding decide_found
decide_found-written markdown now items next id item opened e h =
    ((λ k. cc (e, k)), sym (cc (rw e at h)))
decide_found-written markdown now items next id item decided e h =
    ((λ k. cc (e, k)), sym (cc (rw e at h)))
decide_found-written markdown now items next id item applied e h = absurd (cc (rw e at h))

apply_found-written :
    (markdown now : Text) (items next : List ReviewItem) (id : Text) (item : ReviewItem)
    (status : ReviewStatus)
    → item.status ≡ status
    → (apply_found markdown now items id (some item)).written ≡ some next
    → (item.status ≡ decided) × (next ≡ update_item (apply markdown now) items id)
unfolding apply_found
apply_found-written markdown now items next id item opened e h = absurd (cc (rw e at h))
apply_found-written markdown now items next id item decided e h = (e, sym (cc (rw e at h)))
apply_found-written markdown now items next id item applied e h = absurd (cc (rw e at h))

pub run_review_decide-written :
    (options : Input) (id now : Text) (items next : List ReviewItem)
    → (run_review_decide options id now items).written ≡ some next
    → (markdown : Text) × (item : ReviewItem) × (item.status ≢ applied)
      × IsUpdate (decide markdown now) items next id item
unfolding run_review_decide decide_found
run_review_decide-written options id now items next h =
    elim (Option-cases (read_markdown options)) [
      | inl absent ↦ absurd (cc (rw (absent, run_review_decide) at h))
      | inr (markdown, e) ↦ elim (Option-cases (find_item items id)) [
        | inl absent ↦ absurd (cc (rw (e, absent, run_review_decide) at h))
        | inr (item, found) ↦
            let (state, result) =
              decide_found-written markdown now items next id item item.status refl
                (rw (e, found, run_review_decide) at h) in
            (markdown, item, state, record { found = found; result = result })
      ]
    ]

pub run_review_apply-written :
    (options : Input) (id now : Text) (items next : List ReviewItem)
    → (run_review_apply options id now items).written ≡ some next
    → (markdown : Text) × (item : ReviewItem) × (item.status ≡ decided)
      × IsUpdate (apply markdown now) items next id item
unfolding run_review_apply apply_found
run_review_apply-written options id now items next h = elim (Option-cases (read_markdown options)) [
  | inl absent ↦ absurd (cc (rw (absent, run_review_apply) at h))
  | inr (markdown, e) ↦ elim (Option-cases (find_item items id)) [
    | inl absent ↦ absurd (cc (rw (e, absent, run_review_apply) at h))
    | inr (item, found) ↦
        let (state, result) =
          apply_found-written markdown now items next id item item.status refl
            (rw (e, found, run_review_apply) at h) in
        (markdown, item, state, record { found = found; result = result })
  ]
]

pub run_review_reopen-written :
    (options : Input) (id now : Text) (items next : List ReviewItem)
    → (run_review_reopen options id now items).written ≡ some next
    → (item : ReviewItem) × IsUpdate (reopen (read_markdown options) now) items next id item
unfolding run_review_reopen reopen_found
run_review_reopen-written options id now items next h = elim (Option-cases (find_item items id)) [
  | inl absent ↦ absurd (cc (rw absent at h))
  | inr (item, found) ↦ (item, record { found = found; result = sym (cc (rw found at h)) })
]

add_item-written :
    (summary markdown now : Text) (items next : List ReviewItem) (run : ReviewRun)
    → add_item summary markdown now items ≡ some run
    → run.written ≡ some next
    → (id : Text) × (next_review_id summary items ≡ some id)
      × (next ≡ items ++ new_item id summary now markdown ∷ [])
unfolding add_item
add_item-written summary markdown now items next run h k =
    elim (Option-cases (next_review_id summary items)) [
      | inl absent ↦ absurd (cc (rw (absent, add_item) at h))
      | inr (id, e) ↦
          let same_run : record {
            reply = item_added id;
            written = some (items ++ new_item id summary now markdown ∷ []);
          }
              ≡ run =
            cc (rw (e, add_item) at h) in
          (id, e, cc (same_run, k))
    ]

-- What `review add` writes: the items and a new open one, whose body and summary are not blank.
pub run_review_add-written :
    (options : Input) (now : Text) (items next : List ReviewItem) (run : ReviewRun)
    → run_review_add options now items ≡ some run
    → run.written ≡ some next
    → (markdown id : Text) × (read_markdown options ≡ some markdown)
      × (is_empty (summary_from_markdown markdown) ≡ false)
      × (next_review_id (summary_from_markdown markdown) items ≡ some id)
      × (next ≡ items ++ new_item id (summary_from_markdown markdown) now markdown ∷ [])
unfolding run_review_add
run_review_add-written options now items next run h k =
    elim (Option-cases (read_markdown options)) [
      | inl absent ↦ absurd (cc (rw (absent, run_review_add) at h, k))
      | inr (markdown, e) ↦ elim (Bool-cases (is_empty (summary_from_markdown markdown))) [
        | inl blank ↦ absurd (cc (rw (e, blank, run_review_add) at h, k))
        | inr filled ↦
            let (id, found, result) =
              add_item-written (summary_from_markdown markdown) markdown now items next run
                (rw (e, filled, run_review_add) at h) k in
            (markdown, id, e, filled, found, result)
      ]
    ]
