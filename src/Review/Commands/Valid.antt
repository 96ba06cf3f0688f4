-- ===== src/Review/Commands/Valid.antt =====
-- The files that the review commands write (cli/commands/review.ts).
use codealmanac.Prelude.{
  ℕ, zero, suc, drop_end, is_space, false, ◌≡◌, refl, subst, some, List, [], ◌∷◌, ◌++◌, inl, inr,
  Text, same, contains, All-append, is_empty, trim, arith, Bool-cases, or_else, or_next,
}
use codealmanac.Review.Item.{
  ReviewItem, ids_of, next_review_id, review_id_base, numbered, first_free, summary_from_markdown,
}
use codealmanac.Review.Item.Fresh.{next_review_id_new}
use codealmanac.Prelude.{IsSolid, trim_of_IsSolid, trimmed_end-IsSolid}
use codealmanac.Review.Item.Blank.{
  summary_from_markdown-IsSolid, review_id_base-IsSolid, numbered-IsSolid,
}
use codealmanac.Review.Store.{loaded, load_review_file, write_review_file}
use codealmanac.Review.Store.RoundTrip.{
  IsFilled, IsComplete, HasFreshIds, IsValidFile, load_review_file-write_review_file,
}
use codealmanac.Review.Commands.{Input, read_markdown, new_item, update_item, decide, apply, reopen}
use codealmanac.Review.Commands.States.{
  Step, add, decide_item, apply_item, reopen_item, Reachable, no_file, after, All-update_item,
}
use codealmanac.Review.Commands.Written.{
  IsUpdate, run_review_decide-written, run_review_apply-written, run_review_reopen-written,
  run_review_add-written,
}

first_free-IsSolid :
    (base : Text) (existing : List Text) (fuel i : ℕ) (id : Text)
    → first_free base existing fuel i ≡ some id
    → IsSolid id
unfolding first_free
first_free-IsSolid base existing zero i id h = absurd (cc h)
first_free-IsSolid base existing (suc fuel) i id h =
    elim (Bool-cases (contains (numbered base i) existing)) [
      | inl taken ↦ first_free-IsSolid base existing fuel (suc i) id (rw taken at h)
      | inr free ↦
          let e : numbered base i ≡ id = cc (rw free at h) in
          subst IsSolid e (numbered-IsSolid base i)
    ]

next_review_id-IsSolid :
    (summary : Text) (items : List ReviewItem) (id : Text)
    → next_review_id summary items ≡ some id
    → IsSolid id
unfolding next_review_id
next_review_id-IsSolid summary items id h =
    let base = review_id_base summary in
    elim (Bool-cases (contains base (ids_of items))) [
      | inl taken ↦ first_free-IsSolid base (ids_of items) _ 2 id (rw (taken, next_review_id) at h)
      | inr free ↦
          let e : base ≡ id = cc (rw (free, next_review_id) at h) in
          subst IsSolid e (review_id_base-IsSolid summary)
    ]

next_review_id_free :
    (summary : Text) (items : List ReviewItem) (id : Text)
    → next_review_id summary items ≡ some id
    → contains id (ids_of items) ≡ false
next_review_id_free summary items id h =
    let (other, found, free) = next_review_id_new summary items in
    let e : other ≡ id = cc (found, h) in subst (λ x. contains x (ids_of items) ≡ false) e free

read_markdown-IsFilled :
    (options : Input) (markdown : Text) → read_markdown options ≡ some markdown → IsFilled markdown
unfolding read_markdown
read_markdown-IsFilled options markdown h =
    let input = or_else (or_next options.markdown options.stdin) [] in
    elim (Bool-cases (is_empty (trim input))) [
      | inl blank ↦ absurd (cc (rw (blank, read_markdown) at h))
      | inr filled ↦
          let e : drop_end is_space input ≡ markdown = cc (rw (filled, read_markdown) at h) in
          subst IsFilled e (trim_of_IsSolid _ (trimmed_end-IsSolid input filled))
    ]

new_item-IsComplete :
    (options : Input) (id now markdown : Text) (items : List ReviewItem)
    → IsFilled now
    → read_markdown options ≡ some markdown
    → is_empty (summary_from_markdown markdown) ≡ false
    → next_review_id (summary_from_markdown markdown) items ≡ some id
    → IsComplete (new_item id (summary_from_markdown markdown) now markdown)
new_item-IsComplete options id now markdown items at e filled found = record {
  id = trim_of_IsSolid id (next_review_id-IsSolid (summary_from_markdown markdown) items id found);
  summary =
      trim_of_IsSolid (summary_from_markdown markdown)
        (summary_from_markdown-IsSolid markdown filled);
  created_at = at;
  body = read_markdown-IsFilled options markdown e;
}

HasFreshIds-snoc :
    (seen : List Text) (items : List ReviewItem) (item : ReviewItem)
    → HasFreshIds seen items
    → contains item.id seen ≡ false
    → contains item.id (ids_of items) ≡ false
    → HasFreshIds seen (items ++ item ∷ [])
unfolding contains
HasFreshIds-snoc seen [] item h k free = (k, tt)
HasFreshIds-snoc seen (x ∷ items) item (h, hs) k free =
    (h, HasFreshIds-snoc (x.id ∷ seen) items item hs (ground arith) (ground arith))

HasFreshIds-update_item :
    (change : ReviewItem → ReviewItem)
    → ((item : ReviewItem) → (change item).id ≡ item.id)
    → (seen : List Text) (items : List ReviewItem) (id : Text) → HasFreshIds seen items
    → HasFreshIds seen (update_item change items id)
unfolding update_item
HasFreshIds-update_item change same_id seen [] id h = tt
HasFreshIds-update_item change same_id seen (x ∷ items) id (h, hs) =
    elim (Bool-cases (same x.id id)) [
      | inl own ↦ rw (own, same_id x) (h, hs)
      | inr other ↦ rw other (h, HasFreshIds-update_item change same_id (x.id ∷ seen) items id hs)
    ]

IsValidFile-changed :
    (change : ReviewItem → ReviewItem) (items next : List ReviewItem) (id : Text)
    (item : ReviewItem)
    → IsUpdate change items next id item
    → ((x : ReviewItem) → (change x).id ≡ x.id)
    → (IsComplete item → IsComplete (change item))
    → IsValidFile items
    → IsValidFile next
IsValidFile-changed change items next id item u same_id f h = rw u.result (record {
  complete = All-update_item IsComplete change items id item u.found f h.complete;
  fresh = HasFreshIds-update_item change same_id [] items id h.fresh;
})

Step-IsValidFile :
    {items next : List ReviewItem} → Step items next → IsValidFile items → IsValidFile next
Step-IsValidFile {items} {next} (add {run = run} options now at h k) v =
    let (markdown, id, e, filled, found, result) =
      run_review_add-written options now items next run h k in
    let summary = summary_from_markdown markdown in
    rw result (record {
      complete =
          All-append IsComplete items _ v.complete
            (new_item-IsComplete options id now markdown items at e filled found, tt);
      fresh =
          HasFreshIds-snoc [] items (new_item id summary now markdown) v.fresh
            (unfold contains in refl) (next_review_id_free summary items id found);
    })
Step-IsValidFile {items} {next} (decide_item options id now h) v =
    let (markdown, item, _, u) = run_review_decide-written options id now items next h in
    IsValidFile-changed (decide markdown now) items next id item u (λ x. refl)
      (λ c. record { id = c.id; summary = c.summary; created_at = c.created_at; body = c.body }) v
Step-IsValidFile {items} {next} (apply_item options id now h) v =
    let (markdown, item, _, u) = run_review_apply-written options id now items next h in
    IsValidFile-changed (apply markdown now) items next id item u (λ x. refl)
      (λ c. record { id = c.id; summary = c.summary; created_at = c.created_at; body = c.body }) v
Step-IsValidFile {items} {next} (reopen_item options id now h) v =
    let (item, u) = run_review_reopen-written options id now items next h in
    IsValidFile-changed (reopen (read_markdown options) now) items next id item u (λ x. refl)
      (λ c. record { id = c.id; summary = c.summary; created_at = c.created_at; body = c.body }) v

Reachable-IsValidFile : {items : List ReviewItem} → Reachable items → IsValidFile items
Reachable-IsValidFile no_file = record { complete = tt; fresh = tt }
Reachable-IsValidFile (after h step) = Step-IsValidFile step (Reachable-IsValidFile h)

-- Every file that the review commands can make of no file, at times that are not blank, is read
-- back as it was written: no load ends in an error.
pub Reachable-loads :
    (items : List ReviewItem)
    → Reachable items
    → load_review_file (write_review_file items) ≡ loaded items
Reachable-loads items h = load_review_file-write_review_file items (Reachable-IsValidFile h)
