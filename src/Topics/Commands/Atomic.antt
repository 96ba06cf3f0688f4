-- ===== src/Topics/Commands/Atomic.antt =====
-- Exit codes and effects of the topics commands.
use codealmanac.Prelude.{
  Option, none, some, List, [], ◌∷◌, ◌≡◌, ◌⊎◌, inl, refl, Text, trim, arith, Bool, true, false,
}
use codealmanac.Slug.{to_kebab_case}
use codealmanac.Topics.File.{TopicsFile, TopicEntry, find_topic}
use codealmanac.Topics.Commands.{
  Run, Effect, write_topics, rewrite_pages, run_indexer, exit_code, promote, Promoted, promoted,
  stopped, finish, ◌>>=◌,
}
use codealmanac.Topics.Commands.Link.{link_found, run_topics_link, run_topics_unlink}
use codealmanac.Topics.Commands.Edit.{run_topics_describe, run_topics_delete, run_topics_rename}
use codealmanac.Topics.Commands.Create.{
  run_topics_create, requested_parents, title_from, check_parents, add_parents, create_in,
}

-- Nothing at all, or: the topics file, then perhaps the pages, then the index.
abbrev pub in_order : List Effect → Bool
in_order [] = true
in_order (write_topics file ∷ run_indexer ∷ []) = true
in_order (write_topics file ∷ rewrite_pages change ∷ run_indexer ∷ []) = true
in_order _ = false

-- No effect or exit code 0, and the effects come in the safe order.
abbrev pub IsAtomic : Run → Type 0
IsAtomic run = ((run.effects ≡ []) ⊎ (exit_code run.reply ≡ 0)) × (in_order run.effects ≡ true)

finish-IsAtomic :
    (p : Promoted) (f : TopicsFile → Run)
    → ((file : TopicsFile) → IsAtomic (f file))
    → IsAtomic (finish p f)
finish-IsAtomic (stopped reply) f h = (inl refl, refl)
finish-IsAtomic (promoted file) f h = h file

link_found-IsAtomic :
    (file : TopicsFile) (child parent : Text) (o : Option TopicEntry)
    → IsAtomic (link_found file child parent o)
unfolding link_found exit_code
link_found-IsAtomic file child parent o = ground arith

link-IsAtomic :
    (db : List Text) (file : TopicsFile) (a b : Text) → IsAtomic (run_topics_link db file a b)
unfolding run_topics_link exit_code
link-IsAtomic db file a b =
    let child = to_kebab_case a in
    let parent = to_kebab_case b in
    let after =
      finish-IsAtomic (promote db file child >>= λ f. promote db f parent)
        (λ f. link_found f child parent (find_topic f child))
        (λ f. link_found-IsAtomic f child parent (find_topic f child)) in
    ground (arith, after)

unlink-IsAtomic : (file : TopicsFile) (a b : Text) → IsAtomic (run_topics_unlink file a b)
unfolding run_topics_unlink exit_code
unlink-IsAtomic file a b = ground arith

describe-IsAtomic :
    (db : List Text) (file : TopicsFile) (a b : Text) → IsAtomic (run_topics_describe db file a b)
unfolding run_topics_describe exit_code
describe-IsAtomic db file a b = ground arith

delete-IsAtomic :
    (db : List Text) (file : TopicsFile) (a : Text) → IsAtomic (run_topics_delete db file a)
unfolding run_topics_delete exit_code
delete-IsAtomic db file a = ground arith

rename-IsAtomic :
    (db : List Text) (file : TopicsFile) (a b : Text) → IsAtomic (run_topics_rename db file a b)
unfolding run_topics_rename exit_code
rename-IsAtomic db file a b = ground arith

create_in-IsAtomic :
    (file : TopicsFile) (slug title : Text) (parents : List Text) (o : Option TopicEntry)
    → IsAtomic (create_in file slug title parents o)
unfolding create_in exit_code
create_in-IsAtomic file slug title parents none = ground arith
create_in-IsAtomic file slug title parents (some t) =
    finish-IsAtomic (add_parents slug parents file) _ (λ f. ground arith)

create-IsAtomic :
    (db : List Text) (file : TopicsFile) (a : Text) (ps : List Text)
    → IsAtomic (run_topics_create db file a ps)
unfolding run_topics_create exit_code
create-IsAtomic db file a ps =
    let slug = to_kebab_case a in
    let title = title_from (trim a) slug in
    let parents = requested_parents ps in
    let after =
      finish-IsAtomic (check_parents db slug parents file)
        (λ f. create_in f slug title parents (find_topic f slug))
        (λ f. create_in-IsAtomic f slug title parents (find_topic f slug)) in
    ground (arith, after)

-- For each of the six topics commands and every input: a run changes nothing or exits with 0, and
-- a run that writes does so in the order topics file, pages, index.
pub topics_commands-IsAtomic :
    (db : List Text) (file : TopicsFile) (a b : Text) (parents : List Text)
    → IsAtomic (run_topics_link db file a b)
      × IsAtomic (run_topics_unlink file a b)
      × IsAtomic (run_topics_describe db file a b)
      × IsAtomic (run_topics_delete db file a)
      × IsAtomic (run_topics_rename db file a b)
      × IsAtomic (run_topics_create db file a parents)
topics_commands-IsAtomic db file a b parents = (
  link-IsAtomic db file a b,
  unlink-IsAtomic file a b,
  describe-IsAtomic db file a b,
  delete-IsAtomic db file a,
  rename-IsAtomic db file a b,
  create-IsAtomic db file a parents,
)
