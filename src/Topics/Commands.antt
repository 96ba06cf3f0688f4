-- ===== src/Topics/Commands.antt =====
-- What the commands of cli/commands/topics/ share: replies, effects and the workspace.
pub mod Link
pub mod Edit
pub mod Create
pub mod Atomic
use codealmanac.Prelude.{
  ℕ, Bool, true, false, ◌||◌, Option, none, some, List, [], ◌∷◌, Text, contains, if◌then◌else◌,
}
use codealmanac.Topics.File.{TopicsFile, TopicEntry, find_topic, ensure_topic}

-- What a command prints, without the wording.
pub data Reply : Type 0 where
  empty_slug own_parent : Reply
  missing not_found created updated described deleted : Text → Reply
  edge_exists linked no_edge unlinked would_cycle : Text → Text → Reply
  unchanged : Text → Reply
  already_exists : Text → Reply
  renamed : Text → Text → Reply

unfoldable pub exit_code : Reply → ℕ
exit_code empty_slug = 1
exit_code own_parent = 1
exit_code (missing slug) = 1
exit_code (not_found slug) = 1
exit_code (would_cycle child parent) = 1
exit_code (already_exists slug) = 1
exit_code _ = 0

-- What a command does to the repository, in order.
pub data Effect : Type 0 where
  -- `writeTopicsFile`
  write_topics : TopicsFile → Effect
  -- `rewriteTopicOnPages`, with the transform of each page's topics
  rewrite_pages : (List Text → List Text) → Effect
  -- `runIndexer`
  run_indexer : Effect

pub record Run : Type 0 where
  pub reply : Reply
  pub effects : List Effect

-- The file that the command leaves on disk, if it writes one.
abbrev pub written_by : List Effect → Option TopicsFile
written_by [] = none
written_by (write_topics file ∷ effects) = some file
written_by (rewrite_pages change ∷ effects) = written_by effects
written_by (run_indexer ∷ effects) = written_by effects

abbrev pub written : Run → Option TopicsFile
written run = written_by run.effects

-- An early return, before anything is written.
abbrev pub refuse : Reply → Run
refuse reply = record { reply = reply; effects = [] }

abbrev pub is_some : Option TopicEntry → Bool
is_some none = false
is_some (some t) = true

-- `topicExists`: in the file, or among the slugs of the database's `topics` table.
unfoldable pub topic_exists : TopicsFile → List Text → Text → Bool
topic_exists file db slug = is_some (find_topic file slug) || contains slug db

-- The loops of `link` and `create` over the topics that they name: each must exist, and one that
-- only the database knows is promoted into the file.
pub data Promoted : Type 0 where
  stopped : Reply → Promoted
  promoted : TopicsFile → Promoted

infixl 5 ◌>>=◌
abbrev pub ◌>>=◌ : Promoted → (TopicsFile → Promoted) → Promoted
stopped reply >>= f = stopped reply
promoted file >>= f = f file

unfoldable pub promote : List Text → TopicsFile → Text → Promoted
unfolding topic_exists
promote db file slug =
    if topic_exists file db slug then promoted (ensure_topic file slug) else stopped (missing slug)

abbrev pub finish : Promoted → (TopicsFile → Run) → Run
finish (stopped reply) f = refuse reply
finish (promoted file) f = f file
