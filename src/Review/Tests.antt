-- ===== src/Review/Tests.antt =====
-- A review item's life, and the laws of the queue at concrete inputs.
use codealmanac.Prelude.{
  false, ◌≡◌, refl, none, some, [], ◌∷◌, Text, codes, contains, same, All, trim,
}
use codealmanac.Review.Item.{
  ReviewStatus, opened, decided, applied, ReviewItem, ids_of, next_review_id, summary_from_markdown,
}
use codealmanac.Review.Item.Fresh.{next_review_id_new}
use codealmanac.Review.Store.{loaded, load_review_file, write_review_file}
use codealmanac.Review.Store.RoundTrip.{IsValidFile, load_review_file-write_review_file}
use codealmanac.Review.Commands.{
  Input, ReviewRun, item_added, new_item, decide, run_review_add, run_review_decide,
  run_review_apply, read_markdown,
}
use codealmanac.Review.Commands.States.{
  IsConsistent, Reachable, no_file, after, add, decide_item, Reachable-IsConsistent,
}
use codealmanac.Review.Commands.Valid.{Reachable-loads}

abbrev asked : Input
asked = record { markdown = some (codes "# Two Sources  ##"); stdin = none }

abbrev noon : Text
noon = codes "noon"

summary_of_heading : summary_from_markdown (codes "# Two  Sources ##") ≡ codes "Two Sources"
unfolding summary_from_markdown
summary_of_heading = refl

abbrev asked_item : ReviewItem
asked_item = new_item (codes "two-sources") (codes "Two Sources") noon (codes "# Two Sources  ##")

abbrev decided_item : ReviewItem
decided_item = decide (codes "# Two Sources  ##") noon asked_item

-- The second item of the same summary gets a number.
second_id : next_review_id (codes "Two Sources") (asked_item ∷ []) ≡ some (codes "two-sources-2")
unfolding next_review_id contains same codealmanac.Review.Item.first_free
    codealmanac.Review.Item.Number.decimal
second_id = refl

next_review_id_new_example :
    (id : Text) × (next_review_id (codes "Two Sources") (asked_item ∷ []) ≡ some id)
    × (contains id (ids_of (asked_item ∷ [])) ≡ false)
next_review_id_new_example = next_review_id_new (codes "Two Sources") (asked_item ∷ [])

asked_item-IsValidFile : IsValidFile (asked_item ∷ [])
unfolding trim contains
asked_item-IsValidFile = record {
  complete = (record { id = refl; summary = refl; created_at = refl; body = refl }, tt);
  fresh = (refl, tt);
}

load_review_file-write_review_file_example :
    load_review_file (write_review_file (asked_item ∷ [])) ≡ loaded (asked_item ∷ [])
load_review_file-write_review_file_example =
    load_review_file-write_review_file (asked_item ∷ []) asked_item-IsValidFile

abbrev added_run : ReviewRun
added_run = record { reply = item_added (codes "two-sources"); written = some (asked_item ∷ []) }

adds_item : run_review_add asked noon [] ≡ some added_run
unfolding run_review_add next_review_id contains
adds_item = refl

decides_item :
    (run_review_decide asked (codes "two-sources") noon (asked_item ∷ [])).written
    ≡ some (decided_item ∷ [])
unfolding run_review_decide same codealmanac.Review.Commands.update_item
decides_item = refl

-- One item added and decided.
decided_item-Reachable : Reachable (decided_item ∷ [])
unfolding trim
decided_item-Reachable =
    after {items = asked_item ∷ []}
      (after {items = []} no_file (add asked noon refl adds_item refl))
      (decide_item asked (codes "two-sources") noon decides_item)

Reachable-IsConsistent_example : All IsConsistent (decided_item ∷ [])
Reachable-IsConsistent_example = Reachable-IsConsistent decided_item-Reachable

Reachable-loads_example :
    load_review_file (write_review_file (decided_item ∷ [])) ≡ loaded (decided_item ∷ [])
Reachable-loads_example = Reachable-loads (decided_item ∷ []) decided_item-Reachable
