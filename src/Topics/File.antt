-- ===== src/Topics/File.antt =====
-- `TopicsFile` and its lookups (wiki/topics/yaml.ts).
pub mod Laws
pub mod Disk
use codealmanac.Prelude.{
  ℕ, Bool, true, false, not, Option, none, some, List, [], ◌∷◌, ◌++◌, map, keep, if◌then◌else◌,
  Text, same, is_empty, to_upper_char, split_on, join_with,
}
use codealmanac.Slug.{hyphen}

pub record TopicEntry : Type 0 where
  pub slug : Text
  pub title : Text
  pub description : Option Text
  pub parents : List Text

-- The record's one field is `topics`.
abbrev pub TopicsFile : Type 0
TopicsFile = List TopicEntry

-- The first entry with the slug.
unfoldable pub find_topic : TopicsFile → Text → Option TopicEntry
find_topic [] slug = none
find_topic (t ∷ file) slug = if same t.slug slug then some t else find_topic file slug

abbrev capitalize : Text → Text
capitalize [] = []
capitalize (c ∷ s) = to_upper_char c ∷ s

-- `auth-flow` becomes `Auth Flow`; the argument is a slug, so its letters are ASCII.
unfoldable pub title_case : Text → Text
unfolding split_on join_with
title_case slug =
    join_with b' ' (map capitalize (keep (λ s. not (is_empty s)) (split_on hyphen slug)))

-- The entry that is made for a topic known only by its slug.
abbrev pub minimal_entry : Text → TopicEntry
minimal_entry slug = record {
  slug = slug;
  title = title_case slug;
  description = none;
  parents = [];
}

-- The file after `ensureTopic`; the entry that the source returns is the one `find_topic` finds.
unfoldable pub ensure_topic : TopicsFile → Text → TopicsFile
ensure_topic file slug = elim (find_topic file slug) [
  | some existing ↦ file
  | none ↦ file ++ minimal_entry slug ∷ []
]

-- An assignment to fields of the entry that `find_topic` returned.
unfoldable pub update_topic : (TopicEntry → TopicEntry) → TopicsFile → Text → TopicsFile
update_topic change [] slug = []
update_topic change (t ∷ file) slug =
    if same t.slug slug then change t ∷ file else t ∷ update_topic change file slug
