-- ===== src/Topics/Tests.antt =====
-- Runs of the topics commands, and their laws at concrete inputs.
use mathlib.Core.Option
use codealmanac.Prelude.{
  ℕ, suc, ◌≤◌, none, some, List, [], ◌∷◌, ◌≡◌, refl, ◌↔◌, inl, In, Text, codes, contains, same,
  arith, true,
}
use codealmanac.Slug.{to_kebab_case}
use codealmanac.Topics.File.{TopicEntry, TopicsFile, find_topic}
use codealmanac.Topics.Dag.{dag_depth_cap, ancestors_in_file, parents_list, parents_of}
use codealmanac.Topics.Dag.Climb.{Climb, here, up, IsParent, IsAcyclic}
use codealmanac.Topics.Dag.Complete.{ancestors_in_file_iff}
use codealmanac.Topics.Commands.{Run, Reply, would_cycle, linked, written, exit_code}
use codealmanac.Topics.Commands.Link.{run_topics_link, run_topics_unlink}
use codealmanac.Topics.Commands.Edit.{
  run_topics_describe, run_topics_delete, run_topics_rename, scrub, replace_parents, rename_entry,
}
use codealmanac.Topics.Commands.Create.{run_topics_create, create_slug, requested_parents}
use codealmanac.Topics.Commands.Create.Laws.{Names, run_topics_create-Names, create_slug_cycle}
use codealmanac.Topics.Commands.Edit.Laws.{
  IsGone, IsUnmentioned, run_topics_delete-written, run_topics_rename-written,
}
use codealmanac.Topics.Commands.Link.Acyclic.{run_topics_link-IsAcyclic, IsShallow}
use codealmanac.Topics.Commands.Atomic.{IsAtomic, topics_commands-IsAtomic}

abbrev entry : Text → List Text → TopicEntry
entry slug parents = record { slug = slug; title = slug; description = none; parents = parents }

abbrev security : Text
security = codes "security"

-- `auth` under `security`, and `jwt` on its own
abbrev security_topics : TopicsFile
security_topics =
    entry (codes "auth") (security ∷ []) ∷ entry security [] ∷ entry (codes "jwt") [] ∷ []

ancestors_of_auth : ancestors_in_file security_topics (codes "auth") ≡ security ∷ []
unfolding ancestors_in_file codealmanac.Topics.Dag.climb_rounds parents_list same
    codealmanac.Topics.Dag.visit contains
ancestors_of_auth = refl

cycle_is_refused :
    (run_topics_link [] security_topics security (codes "auth")).reply
    ≡ would_cycle security (codes "auth")
unfolding run_topics_link to_kebab_case same codealmanac.Topics.Commands.promote find_topic
    codealmanac.Topics.File.ensure_topic contains ancestors_in_file
    codealmanac.Topics.Dag.climb_rounds parents_list codealmanac.Topics.Dag.visit
cycle_is_refused = refl

-- Each letter's topic is under the next letter's.
abbrev chain : Text → TopicsFile
chain [] = []
chain (c ∷ []) = entry (c ∷ []) [] ∷ []
chain (c ∷ d ∷ s) = entry (c ∷ []) ((d ∷ []) ∷ []) ∷ chain (d ∷ s)

-- With a chain of more than 32 edges, `link` puts the topic at its top under the one at its
-- bottom.
long_cycle_is_linked :
    (run_topics_link []
      (chain (codes "abcdefghijklmnopqrstuvwxyz01234567"))
      (codes "7")
      (codes "a")).reply
    ≡ linked (codes "7") (codes "a")
unfolding run_topics_link to_kebab_case same codealmanac.Topics.Commands.promote find_topic
    codealmanac.Topics.File.ensure_topic contains ancestors_in_file
    codealmanac.Topics.Dag.climb_rounds parents_list codealmanac.Topics.Dag.visit
long_cycle_is_linked = refl

only_edge :
    (a b : Text) → IsParent security_topics a b → (b ≡ security) × (same (codes "auth") a ≡ true)
unfolding parents_list parents_of same
only_edge a b e = ground arith

no_edge : (a b : Text) → a ≡ security → ¬ IsParent security_topics a b
unfolding same
no_edge a b h e = let own : same (codes "auth") a ≡ true = (only_edge a b e).1 in cc (own, h)

security_topics-IsShallow : IsShallow security_topics
security_topics-IsShallow n a b here = omega arith
security_topics-IsShallow n a b (up e here) = omega arith
security_topics-IsShallow n a b (up {parent = m} e (up {parent = t} f c)) =
    absurd (no_edge m t (only_edge a m e).0 f)

security_topics-IsAcyclic : IsAcyclic security_topics
security_topics-IsAcyclic slug n (up e here) = no_edge slug slug (only_edge slug slug e).0 e
security_topics-IsAcyclic slug n (up {parent = m} e (up {parent = t} f c)) =
    no_edge m t (only_edge slug m e).0 f

ancestors_in_file_iff_example :
    In security (ancestors_in_file security_topics (codes "auth"))
    ↔ ((n : ℕ) × (suc n ≤ dag_depth_cap) × Climb security_topics (suc n) (codes "auth") security)
ancestors_in_file_iff_example = ancestors_in_file_iff security_topics (codes "auth") security

-- The file after `topics link jwt auth`.
abbrev linked_topics : TopicsFile
linked_topics =
    entry (codes "auth") (security ∷ [])
    ∷ entry security []
    ∷ entry (codes "jwt") (codes "auth" ∷ [])
    ∷ []

run_topics_link-IsAcyclic_example : IsAcyclic linked_topics
unfolding run_topics_link to_kebab_case same codealmanac.Topics.Commands.promote find_topic
    codealmanac.Topics.File.ensure_topic contains ancestors_in_file
    codealmanac.Topics.Dag.climb_rounds parents_list codealmanac.Topics.Dag.visit
    codealmanac.Topics.File.update_topic
run_topics_link-IsAcyclic_example =
    run_topics_link-IsAcyclic [] security_topics linked_topics (codes "JWT") (codes "auth")
      security_topics-IsAcyclic security_topics-IsShallow refl

-- The file after `topics delete security`.
abbrev scrubbed_topics : TopicsFile
scrubbed_topics = entry (codes "auth") [] ∷ entry (codes "jwt") [] ∷ []

run_topics_delete-written_example :
    IsGone (to_kebab_case security) scrubbed_topics
    × (find_topic scrubbed_topics (codes "auth")
        ≡ Option.map (scrub (to_kebab_case security)) (find_topic security_topics (codes "auth")))
unfolding run_topics_delete to_kebab_case codealmanac.Topics.Commands.topic_exists find_topic same
    codealmanac.Topics.Commands.Edit.delete_topic
run_topics_delete-written_example =
    run_topics_delete-written [] security_topics scrubbed_topics security (codes "auth") refl
      (λ e. cc e)

-- The file after `topics rename security safety`.
abbrev renamed_topics : TopicsFile
renamed_topics =
    entry (codes "auth") (codes "safety" ∷ [])
    ∷ record { slug = codes "safety"; title = security; description = none; parents = [] }
    ∷ entry (codes "jwt") []
    ∷ []

run_topics_rename-written_example :
    IsUnmentioned (to_kebab_case security) renamed_topics
    × (find_topic renamed_topics (to_kebab_case (codes "safety"))
        ≡ Option.map (replace_parents (to_kebab_case security) (to_kebab_case (codes "safety"))) (
            Option.map
              (rename_entry (to_kebab_case security) (to_kebab_case (codes "safety")))
              (find_topic security_topics (to_kebab_case security))))
    × (find_topic renamed_topics (codes "auth")
        ≡ Option.map
            (replace_parents (to_kebab_case security) (to_kebab_case (codes "safety")))
            (find_topic security_topics (codes "auth")))
unfolding run_topics_rename to_kebab_case same codealmanac.Topics.Commands.topic_exists find_topic
    contains codealmanac.Topics.Commands.Edit.rename_topic codealmanac.Topics.File.update_topic
    codealmanac.Topics.File.title_case
run_topics_rename-written_example =
    run_topics_rename-written [] security_topics renamed_topics security (codes "safety")
      (codes "auth") refl (λ e. cc e) (λ e. cc e)

run_topics_create-Names_example :
    Names linked_topics (to_kebab_case (codes "jwt")) (requested_parents (codes "auth" ∷ []))
unfolding run_topics_create to_kebab_case codealmanac.Topics.Commands.Create.check_parents
    requested_parents same codealmanac.Topics.Commands.promote find_topic
    codealmanac.Topics.Commands.Create.create_in codealmanac.Topics.File.ensure_topic
    codealmanac.Topics.Commands.Create.add_parents contains ancestors_in_file
    codealmanac.Topics.Dag.climb_rounds parents_list codealmanac.Topics.Dag.visit
    codealmanac.Topics.File.update_topic codealmanac.Topics.File.title_case
run_topics_create-Names_example =
    run_topics_create-Names [] security_topics linked_topics (codes "jwt") (codes "auth" ∷ []) refl

-- `auth` names `security` as its parent, but the file has no entry for it.
abbrev dangling_topics : TopicsFile
dangling_topics = entry (codes "auth") (security ∷ []) ∷ []

create_slug_cycle_example :
    (new : TopicsFile) × (written
        (create_slug [] dangling_topics security security (codes "auth" ∷ []))
      ≡ some new)
    × ¬ IsAcyclic new
unfolding find_topic parents_list same
create_slug_cycle_example =
    create_slug_cycle [] dangling_topics security security (codes "auth")
      (entry (codes "auth") (security ∷ [])) (λ e. cc e) (λ e. cc e) refl refl (inl refl)

topics_commands-IsAtomic_example :
    IsAtomic (run_topics_link [] security_topics (codes "jwt") security)
    × IsAtomic (run_topics_unlink security_topics (codes "jwt") security)
    × IsAtomic (run_topics_describe [] security_topics (codes "jwt") security)
    × IsAtomic (run_topics_delete [] security_topics (codes "jwt"))
    × IsAtomic (run_topics_rename [] security_topics (codes "jwt") security)
    × IsAtomic (run_topics_create [] security_topics (codes "jwt") (security ∷ []))
topics_commands-IsAtomic_example =
    topics_commands-IsAtomic [] security_topics (codes "jwt") security (security ∷ [])
