-- ===== src/Topics/Commands/Edit.antt =====
-- `topics describe`, `topics delete` and `topics rename` (describe.ts, delete.ts, rename.ts).
pub mod Laws
use codealmanac.Prelude.{
  Bool, true, false, not, ◌||◌, Option, none, some, List, [], ◌∷◌, ◌++◌, map, keep, Text, same,
  is_empty, if◌then◌else◌, trim,
}
use codealmanac.Slug.{to_kebab_case}
use codealmanac.Topics.File.{
  TopicsFile, TopicEntry, find_topic, update_topic, ensure_topic, title_case,
}
use codealmanac.Topics.Commands.{
  Reply, empty_slug, missing, described, deleted, unchanged, already_exists, renamed, Run, refuse,
  write_topics, rewrite_pages, run_indexer, topic_exists,
}

abbrev pub set_description : Text → TopicEntry → TopicEntry
set_description text t = record t { description = if is_empty text then none else some text }

unfoldable pub describe_slug : List Text → TopicsFile → Text → Text → Run
describe_slug db file slug text =
    if is_empty slug
    then refuse empty_slug
    else if topic_exists file db slug
    then record {
      reply = described slug;
      effects =
          write_topics (update_topic (set_description (trim text)) (ensure_topic file slug) slug)
          ∷ run_indexer
          ∷ [];
    }
    else refuse (missing slug)

unfoldable pub run_topics_describe : List Text → TopicsFile → Text → Text → Run
unfolding describe_slug
run_topics_describe db file slug text = describe_slug db file (to_kebab_case slug) text

-- `topics.filter((t) => t !== slug)`
abbrev pub without : Text → List Text → List Text
without slug topics = keep (λ t. not (same t slug)) topics

abbrev pub scrub : Text → TopicEntry → TopicEntry
scrub slug t = record t { parents = without slug t.parents }

unfoldable pub delete_topic : TopicsFile → Text → TopicsFile
delete_topic file slug = map (scrub slug) (keep (λ t. not (same t.slug slug)) file)

unfoldable pub delete_slug : List Text → TopicsFile → Text → Run
delete_slug db file slug =
    if is_empty slug
    then refuse empty_slug
    else if topic_exists file db slug
    then record {
      reply = deleted slug;
      effects =
          write_topics (delete_topic file slug) ∷ rewrite_pages (without slug) ∷ run_indexer ∷ [];
    }
    else refuse (missing slug)

unfoldable pub run_topics_delete : List Text → TopicsFile → Text → Run
unfolding delete_slug
run_topics_delete db file slug = delete_slug db file (to_kebab_case slug)

-- `(t) => (t === oldSlug ? newSlug : t)`
abbrev pub replace : Text → Text → Text → Text
replace old_slug new_slug t = if same t old_slug then new_slug else t

-- The entry under its new slug; a title that was the default follows the slug.
abbrev pub rename_entry : Text → Text → TopicEntry → TopicEntry
rename_entry old_slug new_slug t = record t {
  slug = new_slug;
  title = if same t.title (title_case old_slug) then title_case new_slug else t.title;
}

abbrev pub replace_parents : Text → Text → TopicEntry → TopicEntry
replace_parents old_slug new_slug t = record t {
  parents = map (replace old_slug new_slug) t.parents;
}

unfoldable pub rename_topic : TopicsFile → Text → Text → TopicsFile
rename_topic file old_slug new_slug =
    map (replace_parents old_slug new_slug)
      (update_topic (rename_entry old_slug new_slug) file old_slug)

unfoldable pub rename_slugs : List Text → TopicsFile → Text → Text → Run
rename_slugs db file old_slug new_slug =
    if is_empty old_slug || is_empty new_slug
    then refuse empty_slug
    else if same old_slug new_slug
    then refuse (unchanged old_slug)
    else if not (topic_exists file db old_slug)
    then refuse (missing old_slug)
    else if topic_exists file db new_slug
    then refuse (already_exists new_slug)
    else record {
      reply = renamed old_slug new_slug;
      effects =
          write_topics (rename_topic file old_slug new_slug)
          ∷ rewrite_pages (map (replace old_slug new_slug))
          ∷ run_indexer
          ∷ [];
    }

unfoldable pub run_topics_rename : List Text → TopicsFile → Text → Text → Run
unfolding rename_slugs
run_topics_rename db file old_slug new_slug =
    rename_slugs db file (to_kebab_case old_slug) (to_kebab_case new_slug)
