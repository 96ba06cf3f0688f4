-- ===== src/Topics/File/Disk.antt =====
-- Reading and writing topics.yaml (`loadTopicsFile` and `writeTopicsFile` in wiki/topics/yaml.ts),
-- on the values that the YAML package parses and prints.
pub mod Normal
pub mod RoundTrip
mod Tests
use codealmanac.Prelude.{
  ℕ, Bool, true, false, not, ◌&&◌, ◌||◌, Option, none, some, List, [], ◌∷◌, ◌++◌, map,
  if◌then◌else◌, Text, same, contains, trim, is_empty,
}
use codealmanac.Slug.{to_kebab_case}
use codealmanac.Topics.File.{TopicEntry, TopicsFile, title_case}

-- A value of the parsed document: a string, or anything else.
pub data Value : Type 0 where
  other : Value
  text : Text → Value

pub data RawParents : Type 0 where
  no_list : RawParents
  listed : List Value → RawParents

pub record RawFields : Type 0 where
  pub slug : Value
  pub title : Value
  pub description : Value
  pub parents : RawParents

pub data RawTopic : Type 0 where
  no_mapping : RawTopic
  mapping : RawFields → RawTopic

-- `blank` is no file, an empty one, or null; `no_topics` a mapping without topics.
pub data Document : Type 0 where
  blank no_topics not_a_mapping topics_no_list : Document
  topics : List RawTopic → Document

pub data Loaded : Type 0 where
  must_be_mapping topics_must_be_list : Loaded
  loaded : TopicsFile → Loaded

-- The string, trimmed, if it is one and not blank.
unfoldable pub filled_text : Value → Option Text
unfolding trim
filled_text other = none
filled_text (text s) = if is_empty (trim s) then none else some (trim s)

-- The slug of a string that is not blank; a string without a slug counts as none.
unfoldable pub slug_of : Value → Option Text
unfolding trim to_kebab_case
slug_of other = none
slug_of (text s) =
    if is_empty (trim s) || is_empty (to_kebab_case s) then none else some (to_kebab_case s)

abbrev pub add_slug : Text → List Text → Option Text → List Text
add_slug slug parents none = parents
add_slug slug parents (some p) =
    if same p slug || contains p parents then parents else parents ++ p ∷ []

-- The loop over the parents, with those that are there.
unfoldable pub parents_from : Text → List Text → List Value → List Text
unfolding slug_of
parents_from slug parents [] = parents
parents_from slug parents (value ∷ values) =
    parents_from slug (add_slug slug parents (slug_of value)) values

unfoldable pub normalize_parents : Text → RawParents → List Text
unfolding parents_from
normalize_parents slug no_list = []
normalize_parents slug (listed values) = parents_from slug [] values

abbrev pub title_of : Text → Option Text → Text
title_of slug none = title_case slug
title_of slug (some title) = title

abbrev pub entry_with : RawFields → Option Text → Option TopicEntry
entry_with raw none = none
entry_with raw (some slug) = some record {
  slug = slug;
  title = title_of slug (filled_text raw.title);
  description = filled_text raw.description;
  parents = normalize_parents slug raw.parents;
}

-- The body of the loop; an item without a slug is left out.
unfoldable pub normalize_topic : RawTopic → Option TopicEntry
unfolding filled_text slug_of normalize_parents
normalize_topic no_mapping = none
normalize_topic (mapping raw) = entry_with raw (slug_of raw.slug)

abbrev pub put_some : Option TopicEntry → TopicsFile → TopicsFile
put_some none file = file
put_some (some t) file = t ∷ file

unfoldable pub normalize_topics : List RawTopic → TopicsFile
unfolding normalize_topic
normalize_topics [] = []
normalize_topics (raw ∷ rest) = put_some (normalize_topic raw) (normalize_topics rest)

unfoldable pub load_topics_file : Document → Loaded
unfolding normalize_topics
load_topics_file blank = loaded []
load_topics_file no_topics = loaded []
load_topics_file not_a_mapping = must_be_mapping
load_topics_file topics_no_list = topics_must_be_list
load_topics_file (topics raw) = loaded (normalize_topics raw)

abbrev pub text_or_null : Option Text → Value
text_or_null none = other
text_or_null (some s) = text s

abbrev pub dump_entry : TopicEntry → RawTopic
dump_entry t = mapping record {
  slug = text t.slug;
  title = text t.title;
  description = text_or_null t.description;
  parents = listed (map text t.parents);
}

-- The stable sort by slug; `precedes a b` says that `a.localeCompare(b) < 0`.
module _ (precedes : Text → Text → Bool) where
  unfoldable pub insert_topic : TopicEntry → TopicsFile → TopicsFile
  insert_topic t [] = t ∷ []
  insert_topic t (u ∷ file) =
      let rest = insert_topic t file in if precedes u.slug t.slug then u ∷ rest else t ∷ u ∷ file

  unfoldable pub sort_topics : TopicsFile → TopicsFile
  unfolding insert_topic
  sort_topics [] = []
  sort_topics (t ∷ file) = insert_topic t (sort_topics file)

  -- The document that `writeTopicsFile` prints.
  unfoldable pub write_topics_file : TopicsFile → Document
  unfolding sort_topics
  write_topics_file file = topics (map dump_entry (sort_topics file))
