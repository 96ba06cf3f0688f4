-- ===== src/Topics/Commands/Link.antt =====
-- `topics link` and `topics unlink` (link.ts, unlink.ts).
pub mod Acyclic
use codealmanac.Prelude.{
  Bool, true, false, not, ◌||◌, Option, none, some, List, [], ◌∷◌, ◌++◌, keep, Text, same, contains,
  is_empty, if◌then◌else◌,
}
use codealmanac.Slug.{to_kebab_case}
use codealmanac.Topics.File.{TopicsFile, TopicEntry, find_topic, update_topic}
use codealmanac.Topics.Dag.{ancestors_in_file}
use codealmanac.Topics.Commands.{
  Reply, empty_slug, own_parent, not_found, edge_exists, linked, no_edge, unlinked, would_cycle,
  Run, refuse, write_topics, run_indexer, promote, finish, ◌>>=◌,
}

-- `entry.parents.push(parent)`
abbrev pub add_parent : Text → TopicEntry → TopicEntry
add_parent parent t = record t { parents = t.parents ++ parent ∷ [] }

-- `childEntry.parents = childEntry.parents.filter((p) => p !== parent)`
abbrev pub remove_parent : Text → TopicEntry → TopicEntry
remove_parent parent t = record t { parents = keep (λ p. not (same p parent)) t.parents }

-- The part after both topics are known to be in the file.
unfoldable pub link_found : TopicsFile → Text → Text → Option TopicEntry → Run
link_found file child parent none = refuse (not_found child)
link_found file child parent (some entry) =
    if contains parent entry.parents
    then refuse (edge_exists child parent)
    else if contains child (ancestors_in_file file parent) || same parent child
    then refuse (would_cycle child parent)
    else record {
      reply = linked child parent;
      effects = write_topics (update_topic (add_parent parent) file child) ∷ run_indexer ∷ [];
    }

unfoldable pub link_slugs : List Text → TopicsFile → Text → Text → Run
unfolding link_found
link_slugs db file child parent =
    if is_empty child || is_empty parent
    then refuse empty_slug
    else if same child parent
    then refuse own_parent
    else finish (promote db file child >>= λ f. promote db f parent)
        (λ f. link_found f child parent (find_topic f child))

-- `runTopicsLink` on the file and the database of a fresh workspace.
unfoldable pub run_topics_link : List Text → TopicsFile → Text → Text → Run
unfolding link_slugs
run_topics_link db file child parent =
    link_slugs db file (to_kebab_case child) (to_kebab_case parent)

unfoldable pub unlink_found : TopicsFile → Text → Text → Option TopicEntry → Run
unlink_found file child parent none = refuse (no_edge child parent)
unlink_found file child parent (some entry) =
    if contains parent entry.parents
    then record {
      reply = unlinked child parent;
      effects = write_topics (update_topic (remove_parent parent) file child) ∷ run_indexer ∷ [];
    }
    else refuse (no_edge child parent)

unfoldable pub unlink_slugs : TopicsFile → Text → Text → Run
unfolding unlink_found
unlink_slugs file child parent =
    if is_empty child || is_empty parent
    then refuse empty_slug
    else unlink_found file child parent (find_topic file child)

unfoldable pub run_topics_unlink : TopicsFile → Text → Text → Run
unfolding unlink_slugs
run_topics_unlink file child parent = unlink_slugs file (to_kebab_case child) (to_kebab_case parent)
