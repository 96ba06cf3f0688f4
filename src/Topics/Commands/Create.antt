-- ===== src/Topics/Commands/Create.antt =====
-- `topics create` (create.ts).
pub mod Laws
pub mod Acyclic
use codealmanac.Prelude.{
  Bool, true, false, not, ◌||◌, ◌&&◌, Option, none, some, List, [], ◌∷◌, ◌++◌, map, keep, Text,
  same, is_empty, if◌then◌else◌, trim, contains,
}
use codealmanac.Slug.{to_kebab_case}
use codealmanac.Topics.File.{TopicsFile, TopicEntry, find_topic, update_topic, title_case}
use codealmanac.Topics.Dag.{ancestors_in_file}
use codealmanac.Topics.Commands.{
  Reply, empty_slug, own_parent, would_cycle, created, updated, Run, refuse, write_topics,
  run_indexer, Promoted, stopped, promoted, promote, finish, ◌>>=◌,
}
use codealmanac.Topics.Commands.Link.{add_parent}

-- The slugs of the requested parents, empty ones dropped.
unfoldable pub requested_parents : List Text → List Text
requested_parents parents = keep (λ p. not (is_empty p)) (map to_kebab_case parents)

-- The first loop: no parent is the topic itself, each exists, and each ends up in the file.
unfoldable pub check_parents : List Text → Text → List Text → TopicsFile → Promoted
check_parents db slug [] file = promoted file
check_parents db slug (p ∷ parents) file =
    if same p slug then stopped own_parent else promote db file p >>= check_parents db slug parents

-- One parent of the second loop, for a topic that is in the file.
unfoldable pub add_new_parent : Text → Text → TopicsFile → Option TopicEntry → Promoted
add_new_parent slug p file none = promoted file
add_new_parent slug p file (some existing) =
    if contains p existing.parents
    then promoted file
    else if contains slug (ancestors_in_file file p) || same p slug
    then stopped (would_cycle slug p)
    else promoted (update_topic (add_parent p) file slug)

-- The second loop.
unfoldable pub add_parents : Text → List Text → TopicsFile → Promoted
unfolding add_new_parent
add_parents slug [] file = promoted file
add_parents slug (p ∷ parents) file =
    add_new_parent slug p file (find_topic file slug) >>= add_parents slug parents

-- The user's title replaces a default one.
abbrev pub promote_title : Text → Text → TopicEntry → TopicEntry
promote_title slug title t =
    if same t.title (title_case t.slug)
      && not (same title (title_case slug))
      && not (same title t.title)
    then record t { title = title }
    else t

abbrev pub new_entry : Text → Text → List Text → TopicEntry
new_entry slug title parents = record {
  slug = slug;
  title = title;
  description = none;
  parents = parents;
}

unfoldable pub create_in : TopicsFile → Text → Text → List Text → Option TopicEntry → Run
create_in file slug title parents none = record {
  reply = created slug;
  effects = write_topics (file ++ new_entry slug title parents ∷ []) ∷ run_indexer ∷ [];
}
create_in file slug title parents (some existing) = finish (add_parents slug parents file) λ f.
    record {
      reply = updated slug;
      effects = write_topics (update_topic (promote_title slug title) f slug) ∷ run_indexer ∷ [];
    }

unfoldable pub create_slug : List Text → TopicsFile → Text → Text → List Text → Run
create_slug db file slug title parents =
    if is_empty slug
    then refuse empty_slug
    else finish (check_parents db slug parents file)
        (λ f. create_in f slug title parents (find_topic f slug))

abbrev pub title_from : Text → Text → Text
title_from name slug = if is_empty name then title_case slug else name

unfoldable pub run_topics_create : List Text → TopicsFile → Text → List Text → Run
unfolding create_slug
run_topics_create db file name parents =
    create_slug db file (to_kebab_case name) (title_from (trim name) (to_kebab_case name))
      (requested_parents parents)
