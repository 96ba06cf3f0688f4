-- ===== src/Jobs/Snapshots.antt =====
-- The comparison of two snapshots of the wiki's pages (`diffPageSnapshots` and `isNoopPageDelta` in
-- jobs/snapshots.ts).
pub mod Laws
use codealmanac.Prelude.{
  ℕ, Bool, true, false, not, ◌&&◌, ◌||◌, ◌==◌, ltb, Option, none, some, List, [], ◌∷◌, Text, same,
  if◌then◌else◌, get_key, keys_of,
}

-- A snapshot is a map from slugs to entries.
pub record PageSnapshotEntry : Type 0 where
  pub slug : Text
  pub hash : Text
  pub archived : Bool

abbrev pub PageSnapshot : Type 0
PageSnapshot = List (Text × PageSnapshotEntry)

pub record PageSnapshotDelta : Type 0 where
  pub created : List Text
  pub updated : List Text
  pub archived : List Text
  pub deleted : List Text

-- `list.sort()` goes by UTF-16 code units.
unfoldable pub text_before : Text → Text → Bool
text_before [] [] = false
text_before [] (d ∷ t) = true
text_before (c ∷ s) [] = false
text_before (c ∷ s) (d ∷ t) = ltb c d || (c == d && text_before s t)

unfoldable pub insert_text : Text → List Text → List Text
unfolding text_before
insert_text a [] = a ∷ []
insert_text a (b ∷ list) =
    let rest = insert_text a list in if text_before b a then b ∷ rest else a ∷ b ∷ list

unfoldable pub sort_texts : List Text → List Text
unfolding insert_text
sort_texts [] = []
sort_texts (a ∷ list) = insert_text a (sort_texts list)

pub data Change : Type 0 where
  kept is_created is_updated is_archived : Change

unfoldable pub change_of : Option PageSnapshotEntry → PageSnapshotEntry → Change
change_of none entry = is_created
change_of (some prev) entry =
    if same prev.hash entry.hash
    then kept
    else if not prev.archived && entry.archived
    then is_archived
    else is_updated

abbrev pub push_change : Change → Text → PageSnapshotDelta → PageSnapshotDelta
push_change kept slug delta = delta
push_change is_created slug delta = record delta { created = slug ∷ delta.created }
push_change is_updated slug delta = record delta { updated = slug ∷ delta.updated }
push_change is_archived slug delta = record delta { archived = slug ∷ delta.archived }

abbrev pub no_delta : PageSnapshotDelta
no_delta = record { created = []; updated = []; archived = []; deleted = [] }

-- The loop over `after`.
unfoldable pub changes_in : PageSnapshot → PageSnapshot → PageSnapshotDelta
unfolding change_of
changes_in before [] = no_delta
changes_in before ((slug, entry) ∷ after) =
    push_change (change_of (get_key slug before) entry) slug (changes_in before after)

-- The loop over `before.keys()`.
abbrev pub push_unless_there : Option PageSnapshotEntry → Text → List Text → List Text
push_unless_there none slug slugs = slug ∷ slugs
push_unless_there (some entry) slug slugs = slugs

unfoldable pub deleted_from : PageSnapshot → PageSnapshot → List Text
deleted_from after [] = []
deleted_from after ((slug, entry) ∷ before) =
    push_unless_there (get_key slug after) slug (deleted_from after before)

unfoldable pub diff_page_snapshots : PageSnapshot → PageSnapshot → PageSnapshotDelta
unfolding changes_in deleted_from sort_texts
diff_page_snapshots before after =
    let delta = changes_in before after in
    record {
      created = sort_texts delta.created;
      updated = sort_texts delta.updated;
      archived = sort_texts delta.archived;
      deleted = sort_texts (deleted_from after before);
    }

abbrev pub no_texts : List Text → Bool
no_texts [] = true
no_texts (a ∷ list) = false

unfoldable pub is_noop_page_delta : PageSnapshotDelta → Bool
is_noop_page_delta delta =
    no_texts delta.created
    && no_texts delta.updated
    && no_texts delta.archived
    && no_texts delta.deleted
