-- ===== src/Review/Item.antt =====
-- Review items, their summaries and their ids (review/store.ts).
pub mod Number
pub mod Fresh
pub mod Blank
use Prim.Native.Nat.{zero, suc}
use codealmanac.Prelude.{
  ℕ, ◌+◌, Bool, true, false, not, ◌&&◌, ◌||◌, Option, none, some, List, [], ◌∷◌, ◌++◌, map, length,
  take, ltb, leb, ◌==◌, if◌then◌else◌, Text, codes, contains, is_space, drop_start, drop_end, trim,
  is_empty, push_first,
}
use codealmanac.Slug.{hyphen, is_hyphen, to_kebab_case}
use codealmanac.Review.Item.Number.{decimal}

pub data ReviewStatus : Type 0 where
  opened decided applied : ReviewStatus

-- Times are ISO texts. The last two fields may be missing or null.
pub record ReviewItem : Type 0 where
  pub id : Text
  pub status : ReviewStatus
  pub summary : Text
  pub created_at : Text
  pub body : Text
  pub decided_at : Option Text
  pub decision : Option Text
  pub applied_at : Option Text
  pub application : Option Text
  pub reopened_at : Option (Option Text)
  pub reopen_note : Option (Option Text)

-- `.replace(/\s+/g, " ")`; the flag says that the last unit was white space.
unfoldable pub collapse_spaces : Bool → Text → Text
collapse_spaces run [] = []
collapse_spaces run (c ∷ s) =
    let rest = collapse_spaces (is_space c) s in
    if is_space c then (if run then rest else 32 ∷ rest) else c ∷ rest

abbrev starts_with_space : Text → Bool
starts_with_space [] = false
starts_with_space (c ∷ s) = is_space c

-- `.replace(/^[-*]\s+/, "")`
unfoldable pub strip_bullet : Text → Text
strip_bullet [] = []
strip_bullet (c ∷ s) =
    if (c == hyphen || c == b'*') && starts_with_space s then drop_start is_space s else c ∷ s

unfoldable pub clean_summary : Text → Text
unfolding collapse_spaces strip_bullet trim
clean_summary value = trim (take 160 (trim (strip_bullet (collapse_spaces false value))))

abbrev is_hash : ℕ → Bool
is_hash c = c == b'#'

-- The units that `.` does not match.
abbrev is_line_end : ℕ → Bool
is_line_end c = c == 10 || c == 13 || c == 0x2028 || c == 0x2029

abbrev any_unit : (ℕ → Bool) → Text → Bool
any_unit p [] = false
any_unit p (c ∷ s) = p c || any_unit p s

-- The group `(.+?)` before `\s*#*$`, of what follows the hashes and the white space.
abbrev heading_text : Text → Option Text
heading_text [] = none
heading_text (c ∷ s) =
    let group = c ∷ drop_end is_space (drop_end is_hash s) in
    if any_unit is_line_end group then none else some group

abbrev after_hashes : Text → Option Text
after_hashes [] = none
after_hashes (c ∷ s) = if is_space c then heading_text (drop_start is_space s) else none

-- `/^#{1,6}\s+(.+?)\s*#*$/.exec(line)`, with the hashes that may still come.
unfoldable pub match_heading : ℕ → Text → Option Text
match_heading zero s = after_hashes s
match_heading (suc more) [] = none
match_heading (suc more) (c ∷ s) =
    let deeper = match_heading more s in if is_hash c then deeper else after_hashes (c ∷ s)

unfoldable pub heading_of : Text → Option Text
unfolding match_heading
heading_of [] = none
heading_of (c ∷ s) = if is_hash c then match_heading 5 s else none

-- The loop over the lines, with the first line that is not blank so far.
unfoldable pub summary_from_lines : Text → List Text → Text
unfolding clean_summary heading_of trim
summary_from_lines first [] = clean_summary first
summary_from_lines first (line ∷ lines) =
    let trimmed = trim line in
    let same_first = summary_from_lines first lines in
    let new_first = summary_from_lines trimmed lines in
    if is_empty trimmed then same_first else elim (heading_of trimmed) [
      | some heading ↦ clean_summary heading
      | none ↦ if is_empty first then new_first else same_first
    ]

abbrev starts_with_newline : Text → Bool
starts_with_newline [] = false
starts_with_newline (c ∷ s) = c == 10

-- `markdown.split(/\r?\n/)`
unfoldable pub split_breaks : Text → List Text
split_breaks [] = [] ∷ []
split_breaks (c ∷ s) =
    let rest = split_breaks s in
    if c == 10
    then [] ∷ rest
    else if c == 13 && starts_with_newline s
    then rest
    else push_first c rest

unfoldable pub summary_from_markdown : Text → Text
unfolding summary_from_lines split_breaks
summary_from_markdown markdown = summary_from_lines [] (split_breaks markdown)

-- `nextReviewId` before a number is added.
unfoldable pub review_id_base : Text → Text
unfolding to_kebab_case
review_id_base summary =
    let base = drop_end is_hyphen (take 80 (to_kebab_case summary)) in
    if is_empty base then codes "review-item" else base

-- `${base}-${i}`
abbrev pub numbered : Text → ℕ → Text
numbered base i = base ++ (hyphen ∷ decimal i)

-- The endless loop on fuel: `none` when the fuel is out.
unfoldable pub first_free : Text → List Text → ℕ → ℕ → Option Text
first_free base existing zero i = none
first_free base existing (suc fuel) i =
    let later = first_free base existing fuel (suc i) in
    if contains (numbered base i) existing then later else some (numbered base i)

abbrev pub ids_of : List ReviewItem → List Text
ids_of items = map (λ item. item.id) items

-- One round more than there are items.
unfoldable pub next_review_id : Text → List ReviewItem → Option Text
unfolding review_id_base
next_review_id summary items =
    let base = review_id_base summary in
    let existing = ids_of items in
    if contains base existing then first_free base existing (suc (length existing)) 2 else some base
