-- ===== src/Review/Commands.antt =====
-- `almanac review` (cli/commands/review.ts), on the items that `loadReviewFile` has returned.
pub mod Written
pub mod States
pub mod Valid
use codealmanac.Prelude.{
  ℕ, Bool, true, false, not, Option, none, some, List, [], ◌∷◌, ◌++◌, map, keep, if◌then◌else◌,
  or_else, or_next, Text, same, is_space, drop_end, trim, is_empty,
}
use codealmanac.Review.Item.{
  ReviewStatus, opened, decided, applied, ReviewItem, summary_from_markdown, next_review_id,
}

-- What a command prints, without the wording.
pub data ReviewReply : Type 0 where
  missing_markdown : ReviewReply
  no_review_item reopen_first : Text → ReviewReply
  requires_decided : Text → ReviewStatus → ReviewReply
  item_added item_decided item_applied item_reopened : Text → ReviewReply

-- The items that `writeReviewFile` is called with, if it is called.
pub record ReviewRun : Type 0 where
  pub reply : ReviewReply
  pub written : Option (List ReviewItem)

abbrev pub refuse : ReviewReply → ReviewRun
refuse reply = record { reply = reply; written = none }

-- The arguments `markdown` and `stdinInput`.
pub record Input : Type 0 where
  pub markdown : Option Text
  pub stdin : Option Text

unfoldable pub read_markdown : Input → Option Text
unfolding trim
read_markdown options =
    let input = or_else (or_next options.markdown options.stdin) [] in
    if is_empty (trim input) then none else some (drop_end is_space input)

abbrev pub new_item : Text → Text → Text → Text → ReviewItem
new_item id summary now body = record {
  id = id;
  status = opened;
  summary = summary;
  created_at = now;
  body = body;
  decided_at = none;
  decision = none;
  applied_at = none;
  application = none;
  reopened_at = none;
  reopen_note = none;
}

-- With the summary; `none` if the search for an id ran out of fuel.
unfoldable pub add_item : Text → Text → Text → List ReviewItem → Option ReviewRun
add_item summary markdown now items = elim (next_review_id summary items) [
  | none ↦ none
  | some id ↦ some record {
    reply = item_added id;
    written = some (items ++ new_item id summary now markdown ∷ []);
  }
]

unfoldable pub run_review_add : Input → Text → List ReviewItem → Option ReviewRun
unfolding read_markdown summary_from_markdown add_item
run_review_add options now items = elim (read_markdown options) [
  | none ↦ some (refuse missing_markdown)
  | some markdown ↦
      let summary = summary_from_markdown markdown in
      if is_empty summary
      then some (refuse missing_markdown)
      else add_item summary markdown now items
]

-- `items.find((candidate) => candidate.id === id)`
unfoldable pub find_item : List ReviewItem → Text → Option ReviewItem
find_item [] id = none
find_item (item ∷ items) id = if same item.id id then some item else find_item items id

-- The assignments to the item that was found.
unfoldable pub update_item : (ReviewItem → ReviewItem) → List ReviewItem → Text → List ReviewItem
update_item change [] id = []
update_item change (item ∷ items) id =
    if same item.id id then change item ∷ items else item ∷ update_item change items id

abbrev pub decide : Text → Text → ReviewItem → ReviewItem
decide markdown now item = record item {
  status = decided;
  decision = some markdown;
  decided_at = some now;
  applied_at = none;
  application = none;
}

abbrev pub apply : Text → Text → ReviewItem → ReviewItem
apply markdown now item = record item {
  status = applied;
  application = some markdown;
  applied_at = some now;
}

abbrev pub reopen : Option Text → Text → ReviewItem → ReviewItem
reopen markdown now item = record item {
  status = opened;
  reopened_at = some (some now);
  reopen_note = some markdown;
  decided_at = none;
  decision = none;
  applied_at = none;
  application = none;
}

-- `runReviewDecide` on the item that was found.
unfoldable pub decide_found : Text → Text → List ReviewItem → Text → Option ReviewItem → ReviewRun
decide_found markdown now items id none = refuse (no_review_item id)
decide_found markdown now items id (some item) = elim item.status [
  | applied ↦ refuse (reopen_first item.id)
  | opened ↦ record {
    reply = item_decided item.id;
    written = some (update_item (decide markdown now) items id);
  }
  | decided ↦ record {
    reply = item_decided item.id;
    written = some (update_item (decide markdown now) items id);
  }
]

unfoldable pub run_review_decide : Input → Text → Text → List ReviewItem → ReviewRun
unfolding read_markdown decide_found find_item
run_review_decide options id now items = elim (read_markdown options) [
  | none ↦ refuse missing_markdown
  | some markdown ↦ decide_found markdown now items id (find_item items id)
]

unfoldable pub apply_found : Text → Text → List ReviewItem → Text → Option ReviewItem → ReviewRun
apply_found markdown now items id none = refuse (no_review_item id)
apply_found markdown now items id (some item) = elim item.status [
  | decided ↦ record {
    reply = item_applied item.id;
    written = some (update_item (apply markdown now) items id);
  }
  | opened ↦ refuse (requires_decided item.id opened)
  | applied ↦ refuse (requires_decided item.id applied)
]

unfoldable pub run_review_apply : Input → Text → Text → List ReviewItem → ReviewRun
unfolding read_markdown apply_found find_item
run_review_apply options id now items = elim (read_markdown options) [
  | none ↦ refuse missing_markdown
  | some markdown ↦ apply_found markdown now items id (find_item items id)
]

unfoldable pub reopen_found :
    Option Text → Text → List ReviewItem → Text → Option ReviewItem → ReviewRun
reopen_found markdown now items id none = refuse (no_review_item id)
reopen_found markdown now items id (some item) = record {
  reply = item_reopened item.id;
  written = some (update_item (reopen markdown now) items id);
}

unfoldable pub run_review_reopen : Input → Text → Text → List ReviewItem → ReviewRun
unfolding read_markdown reopen_found find_item
run_review_reopen options id now items =
    reopen_found (read_markdown options) now items id (find_item items id)
