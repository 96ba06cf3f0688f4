-- ===== src/Review/Store.antt =====
-- Reading and writing review.yaml (review/store.ts), on the values that the YAML package parses
-- and prints.
pub mod RoundTrip
use codealmanac.Prelude.{
  ℕ, suc, Bool, true, false, Option, none, some, List, [], ◌∷◌, map, if◌then◌else◌, Text, codes,
  same, contains, trim, is_empty,
}
use codealmanac.Review.Item.{ReviewStatus, opened, decided, applied, ReviewItem}

-- A value of the parsed document. `other` stands for a number, a boolean, a list or a mapping.
pub data Value : Type 0 where
  undefined null other : Value
  text : Text → Value

pub record RawFields : Type 0 where
  pub id : Value
  pub status : Value
  pub summary : Value
  pub created_at : Value
  pub body : Value
  pub decided_at : Value
  pub decision : Value
  pub applied_at : Value
  pub application : Value
  pub reopened_at : Value
  pub reopen_note : Value

-- An element of `items`.
pub data RawItem : Type 0 where
  no_mapping : RawItem
  mapping : RawFields → RawItem

pub data Version : Type 0 where
  missing_version version_1 other_version : Version

pub data RawItems : Type 0 where
  missing_items no_list : RawItems
  listed : List RawItem → RawItems

-- What the file holds: `blank` is no file, an empty one or null.
pub data Document : Type 0 where
  blank not_a_mapping : Document
  fields : Version → RawItems → Document

-- The errors, by the text of their message; an item's number counts from 1.
pub data LoadError : Type 0 where
  must_be_mapping items_must_be_list unsupported_version : LoadError
  item_must_be_mapping : ℕ → LoadError
  requires_non_empty : ℕ → Text → LoadError
  invalid_status : ℕ → LoadError
  duplicate_id : Text → LoadError

pub data Loaded (A : Type 0) : Type 0 where
  threw : LoadError → Loaded A
  loaded : A → Loaded A

infixl 5 ◌>>=◌
abbrev pub ◌>>=◌ : {A B : Type 0} → Loaded A → (A → Loaded B) → Loaded B
threw error >>= f = threw error
loaded a >>= f = f a

unfoldable pub required_string : Value → Text → ℕ → Loaded Text
unfolding trim
required_string (text s) key index =
    if is_empty (trim s) then threw (requires_non_empty index key) else loaded s
required_string _ key index = threw (requires_non_empty index key)

unfoldable pub required_status : Value → ℕ → Loaded ReviewStatus
unfolding same
required_status (text s) index =
    if same s (codes "open")
    then loaded opened
    else if same s (codes "decided")
    then loaded decided
    else if same s (codes "applied")
    then loaded applied
    else threw (invalid_status index)
required_status _ index = threw (invalid_status index)

abbrev pub nullable_string : Value → Option Text
nullable_string (text s) = some s
nullable_string _ = none

-- A field that is left out when it is undefined.
abbrev pub optional_string : Value → Option (Option Text)
optional_string undefined = none
optional_string value = some (nullable_string value)

unfoldable pub normalize_review_item : ℕ → RawFields → Loaded ReviewItem
unfolding required_string required_status
normalize_review_item index item = do
  id ← required_string item.id (codes "id") index
  status ← required_status item.status index
  summary ← required_string item.summary (codes "summary") index
  created_at ← required_string item.created_at (codes "created_at") index
  body ← required_string item.body (codes "body") index
  loaded record {
    id = id;
    status = status;
    summary = summary;
    created_at = created_at;
    body = body;
    decided_at = nullable_string item.decided_at;
    decision = nullable_string item.decision;
    applied_at = nullable_string item.applied_at;
    application = nullable_string item.application;
    reopened_at = optional_string item.reopened_at;
    reopen_note = optional_string item.reopen_note;
  }

unfoldable pub normalize_entry : ℕ → RawItem → Loaded ReviewItem
unfolding normalize_review_item
normalize_entry index no_mapping = threw (item_must_be_mapping index)
normalize_entry index (mapping item) = normalize_review_item index item

-- `rawItems.map`, from the item with the number.
unfoldable pub normalize_items : ℕ → List RawItem → Loaded (List ReviewItem)
unfolding normalize_entry
normalize_items index [] = loaded []
normalize_items index (raw ∷ rest) = do
  item ← normalize_entry index raw
  items ← normalize_items (suc index) rest
  loaded (item ∷ items)

-- The loop over `seenIds`.
unfoldable pub check_ids : List Text → List ReviewItem → Loaded Unit
check_ids seen [] = loaded tt
check_ids seen (item ∷ items) =
    let rest = check_ids (item.id ∷ seen) items in
    if contains item.id seen then threw (duplicate_id item.id) else rest

unfoldable pub load_items : RawItems → Loaded (List ReviewItem)
unfolding normalize_items check_ids
load_items missing_items = loaded []
load_items no_list = threw items_must_be_list
load_items (listed raw) = do
  items ← normalize_items 1 raw
  unique ← check_ids [] items
  loaded items

unfoldable pub load_review_file : Document → Loaded (List ReviewItem)
unfolding load_items
load_review_file blank = loaded []
load_review_file not_a_mapping = threw must_be_mapping
load_review_file (fields other_version items) = threw unsupported_version
load_review_file (fields _ items) = load_items items

abbrev pub status_text : ReviewStatus → Text
status_text opened = codes "open"
status_text decided = codes "decided"
status_text applied = codes "applied"

abbrev pub string_or_null : Option Text → Value
string_or_null none = null
string_or_null (some s) = text s

abbrev pub spread : Option (Option Text) → Value
spread none = undefined
spread (some value) = string_or_null value

abbrev pub dump_item : ReviewItem → RawFields
dump_item item = record {
  id = text item.id;
  status = text (status_text item.status);
  summary = text item.summary;
  created_at = text item.created_at;
  body = text item.body;
  decided_at = string_or_null item.decided_at;
  decision = string_or_null item.decision;
  applied_at = string_or_null item.applied_at;
  application = string_or_null item.application;
  reopened_at = spread item.reopened_at;
  reopen_note = spread item.reopen_note;
}

-- The document that `writeReviewFile` prints.
unfoldable pub write_review_file : List ReviewItem → Document
write_review_file items = fields version_1 (listed (map (λ item. mapping (dump_item item)) items))
