-- ===== src/Topics/Commands/Edit/Laws.antt =====
-- What `topics delete` and `topics rename` leave in the file.
use mathlib.Core.Option
use codealmanac.Prelude.{
  none, some, List, [], ◌∷◌, map, ◌≡◌, ◌≢◌, refl, sym, Text, same, same_iff, Bool-cases, false,
  arith, In, All, inl, inr,
}
use codealmanac.Slug.{to_kebab_case}
use codealmanac.Topics.File.{TopicsFile, find_topic}
use codealmanac.Topics.File.Laws.{
  find_topic-map, find_topic-update_topic_ne, find_topic-update_topic_moved,
}
use codealmanac.Topics.Commands.{written, topic_exists}
use codealmanac.Topics.Commands.Edit.{
  without, scrub, delete_topic, run_topics_delete, replace, replace_parents, rename_entry,
  rename_topic, run_topics_rename, delete_slug, rename_slugs,
}

not-In-without : (slug : Text) (xs : List Text) → ¬ In slug (without slug xs)
not-In-without slug [] h = h
not-In-without slug (x ∷ xs) h = elim (Bool-cases (same x slug)) [
  | inl own ↦ not-In-without slug xs (rw own at h)
  | inr other ↦ elim (let k : In slug (x ∷ without slug xs) = rw other at h in k) [
    | inl e ↦ cc (other, (same_iff x slug).1 (sym e))
    | inr k ↦ not-In-without slug xs k
  ]
]

find_topic-delete_topic :
    (file : TopicsFile) (slug s : Text)
    → slug ≢ s
    → find_topic (delete_topic file slug) s ≡ Option.map (scrub slug) (find_topic file s)
unfolding delete_topic find_topic
find_topic-delete_topic [] slug s h = refl
find_topic-delete_topic (t ∷ file) slug s h =
    ground (arith, find_topic-delete_topic file slug s h, same_iff t.slug slug, same_iff t.slug s)

-- The topic is nowhere: neither an entry nor among the parents of one.
abbrev pub IsGone : Text → TopicsFile → Type 0
IsGone slug file = All (λ t. (t.slug ≢ slug) × ¬ In slug t.parents) file

delete_topic-IsGone : (file : TopicsFile) (slug : Text) → IsGone slug (delete_topic file slug)
unfolding delete_topic
delete_topic-IsGone [] slug = tt
delete_topic-IsGone (t ∷ file) slug = elim (Bool-cases (same t.slug slug)) [
  | inl own ↦ rw own (delete_topic-IsGone file slug)
  | inr other ↦ rw other (
    ((λ e. cc (other, (same_iff t.slug slug).1 e)), not-In-without slug t.parents),
    delete_topic-IsGone file slug,
  )
]

delete_slug-written :
    (db : List Text) (file new : TopicsFile) (slug : Text)
    → written (delete_slug db file slug) ≡ some new
    → new ≡ delete_topic file slug
unfolding delete_slug
delete_slug-written db file new slug h = ground arith

-- The file that `topics delete` writes holds the topic neither as an entry nor as a parent, and
-- each other slug finds the entry that it found, without that parent.
pub run_topics_delete-written :
    (db : List Text) (file new : TopicsFile) (name other_slug : Text)
    → written (run_topics_delete db file name) ≡ some new
    → to_kebab_case name ≢ other_slug
    → IsGone (to_kebab_case name) new
      × (find_topic new other_slug
          ≡ Option.map (scrub (to_kebab_case name)) (find_topic file other_slug))
unfolding run_topics_delete
run_topics_delete-written db file new name other_slug h other =
    let slug = to_kebab_case name in
    let e = delete_slug-written db file new slug h in
    (
      rw e (delete_topic-IsGone file slug),
      rw e (find_topic-delete_topic file slug other_slug other),
    )

not-In-replace :
    (old_slug new_slug : Text) (xs : List Text)
    → old_slug ≢ new_slug
    → ¬ In old_slug (map (replace old_slug new_slug) xs)
not-In-replace old_slug new_slug [] distinct h = h
not-In-replace old_slug new_slug (x ∷ xs) distinct (inr h) =
    not-In-replace old_slug new_slug xs distinct h
not-In-replace old_slug new_slug (x ∷ xs) distinct (inl e) = elim (Bool-cases (same x old_slug)) [
  | inl own ↦ distinct (rw own at e)
  | inr other ↦ cc (other, (same_iff x old_slug).1 (sym (rw other at e)))
]

-- No entry names the topic as a parent.
abbrev pub IsUnmentioned : Text → TopicsFile → Type 0
IsUnmentioned slug file = All (λ t. ¬ In slug t.parents) file

map-IsUnmentioned :
    (old_slug new_slug : Text)
    → old_slug ≢ new_slug
    → (file : TopicsFile) → IsUnmentioned old_slug (map (replace_parents old_slug new_slug) file)
map-IsUnmentioned old_slug new_slug distinct [] = tt
map-IsUnmentioned old_slug new_slug distinct (t ∷ file) = (
  not-In-replace old_slug new_slug t.parents distinct,
  map-IsUnmentioned old_slug new_slug distinct file,
)

record IsRenamed (file new : TopicsFile) (old_slug new_slug : Text) : Type 0 where
  distinct : old_slug ≢ new_slug
  free : find_topic file new_slug ≡ none
  result : new ≡ rename_topic file old_slug new_slug

rename_slugs-IsRenamed :
    (db : List Text) (file new : TopicsFile) (old_slug new_slug : Text)
    → written (rename_slugs db file old_slug new_slug) ≡ some new
    → IsRenamed file new old_slug new_slug
unfolding rename_slugs topic_exists
rename_slugs-IsRenamed db file new old_slug new_slug h = ground (arith, same_iff old_slug new_slug)

find_topic-rename_topic_new :
    (file : TopicsFile) (old_slug new_slug : Text)
    → find_topic file new_slug ≡ none
    → find_topic (rename_topic file old_slug new_slug) new_slug
      ≡ Option.map
          (replace_parents old_slug new_slug)
          (Option.map (rename_entry old_slug new_slug) (find_topic file old_slug))
unfolding rename_topic
find_topic-rename_topic_new file old_slug new_slug free = rw (
  find_topic-map (replace_parents old_slug new_slug) (λ t. refl),
  find_topic-update_topic_moved (rename_entry old_slug new_slug) new_slug (λ t. refl) file old_slug
      free,
)

find_topic-rename_topic_ne :
    (file : TopicsFile) (old_slug new_slug s : Text)
    → old_slug ≢ s
    → new_slug ≢ s
    → find_topic (rename_topic file old_slug new_slug) s
      ≡ Option.map (replace_parents old_slug new_slug) (find_topic file s)
unfolding rename_topic
find_topic-rename_topic_ne file old_slug new_slug s not_old not_new =
    let moved : same new_slug s ≡ false = ground (arith, same_iff new_slug s) in
    rw (
      find_topic-map (replace_parents old_slug new_slug) (λ t. refl),
      find_topic-update_topic_ne (rename_entry old_slug new_slug) s (λ t. moved) file old_slug
          not_old,
    )

-- In the file that `topics rename` writes, no entry names the old slug as a parent; the new slug
-- finds the old topic's entry, renamed and with its parents renamed; and every other slug but the
-- old one finds what it found, with the parents renamed.
pub run_topics_rename-written :
    (db : List Text) (file new : TopicsFile) (old_name new_name other_slug : Text)
    → written (run_topics_rename db file old_name new_name) ≡ some new
    → to_kebab_case old_name ≢ other_slug
    → to_kebab_case new_name ≢ other_slug
    → IsUnmentioned (to_kebab_case old_name) new
      × (find_topic new (to_kebab_case new_name)
          ≡ Option.map (replace_parents (to_kebab_case old_name) (to_kebab_case new_name)) (
              Option.map
                (rename_entry (to_kebab_case old_name) (to_kebab_case new_name))
                (find_topic file (to_kebab_case old_name))))
      × (find_topic new other_slug
          ≡ Option.map
              (replace_parents (to_kebab_case old_name) (to_kebab_case new_name))
              (find_topic file other_slug))
unfolding run_topics_rename
run_topics_rename-written db file new old_name new_name other_slug h not_old not_new =
    let o = to_kebab_case old_name in
    let n = to_kebab_case new_name in
    let r = rename_slugs-IsRenamed db file new o n h in
    (
      rw r.result (unfold rename_topic in map-IsUnmentioned o n r.distinct _),
      rw r.result (find_topic-rename_topic_new file o n r.free),
      rw r.result (find_topic-rename_topic_ne file o n other_slug not_old not_new),
    )
