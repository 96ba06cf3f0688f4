-- ===== src/Review/Store/RoundTrip.antt =====
-- `writeReviewFile`, then `loadReviewFile` (review/store.ts).
use codealmanac.Prelude.{
  ℕ, suc, false, ◌≡◌, refl, Option, none, some, List, [], ◌∷◌, map, Text, codes, same, contains,
  trim, is_empty, All,
}
use codealmanac.Review.Item.{ReviewStatus, opened, decided, applied, ReviewItem}
use codealmanac.Review.Store.{
  loaded, text, mapping, nullable_string, optional_string, string_or_null, spread, status_text,
  required_string, required_status, normalize_review_item, normalize_entry, normalize_items,
  check_ids, load_items, load_review_file, dump_item, write_review_file,
}

abbrev pub IsFilled : Text → Type 0
IsFilled s = is_empty (trim s) ≡ false

-- The required fields of the item are not blank.
pub record IsComplete (item : ReviewItem) : Type 0 where
  pub id : IsFilled item.id
  pub summary : IsFilled item.summary
  pub created_at : IsFilled item.created_at
  pub body : IsFilled item.body

-- No two items have the same id, nor one of these.
abbrev pub HasFreshIds : List Text → List ReviewItem → Type 0
HasFreshIds seen [] = Unit
HasFreshIds seen (item ∷ items) =
    (contains item.id seen ≡ false) × HasFreshIds (item.id ∷ seen) items

pub record IsValidFile (items : List ReviewItem) : Type 0 where
  pub complete : All IsComplete items
  pub fresh : HasFreshIds [] items

required_string_of_IsFilled :
    (s key : Text) (index : ℕ) → IsFilled s → required_string (text s) key index ≡ loaded s
unfolding required_string
required_string_of_IsFilled s key index h = rw h refl

required_status-status_text :
    (status : ReviewStatus) (index : ℕ)
    → required_status (text (status_text status)) index ≡ loaded status
unfolding required_status same
required_status-status_text opened index = refl
required_status-status_text decided index = refl
required_status-status_text applied index = refl

nullable_string-string_or_null : (o : Option Text) → nullable_string (string_or_null o) ≡ o
nullable_string-string_or_null none = refl
nullable_string-string_or_null (some s) = refl

optional_string-spread : (o : Option (Option Text)) → optional_string (spread o) ≡ o
optional_string-spread none = refl
optional_string-spread (some none) = refl
optional_string-spread (some (some s)) = refl

normalize_review_item-dump_item :
    (index : ℕ) (item : ReviewItem)
    → IsComplete item
    → normalize_review_item index (dump_item item) ≡ loaded item
unfolding normalize_review_item
normalize_review_item-dump_item index item h =
    rw
      (
        required_string_of_IsFilled item.id (codes "id") index h.id,
        required_status-status_text item.status index,
        required_string_of_IsFilled item.summary (codes "summary") index h.summary,
        required_string_of_IsFilled item.created_at (codes "created_at") index h.created_at,
        required_string_of_IsFilled item.body (codes "body") index h.body,
        nullable_string-string_or_null item.decided_at,
        nullable_string-string_or_null item.decision,
        nullable_string-string_or_null item.applied_at,
        nullable_string-string_or_null item.application,
        optional_string-spread item.reopened_at,
        optional_string-spread item.reopen_note,
      )
      refl

normalize_items-dump_item :
    (index : ℕ) (items : List ReviewItem)
    → All IsComplete items
    → normalize_items index (map (λ item. mapping (dump_item item)) items) ≡ loaded items
unfolding normalize_items normalize_entry
normalize_items-dump_item index [] h = refl
normalize_items-dump_item index (item ∷ items) (h, hs) =
    rw
      (normalize_review_item-dump_item index item h, normalize_items-dump_item (suc index) items hs)
      refl

check_ids_of_HasFreshIds :
    (seen : List Text) (items : List ReviewItem)
    → HasFreshIds seen items
    → check_ids seen items ≡ loaded tt
unfolding check_ids
check_ids_of_HasFreshIds seen [] h = refl
check_ids_of_HasFreshIds seen (item ∷ items) (h, hs) =
    rw h (check_ids_of_HasFreshIds (item.id ∷ seen) items hs)

-- A file whose items have distinct ids and no blank required field is read back as it was
-- written.
pub load_review_file-write_review_file :
    (items : List ReviewItem)
    → IsValidFile items
    → load_review_file (write_review_file items) ≡ loaded items
unfolding load_review_file write_review_file load_items
load_review_file-write_review_file items h =
    rw (normalize_items-dump_item 1 items h.complete, check_ids_of_HasFreshIds [] items h.fresh)
      refl
