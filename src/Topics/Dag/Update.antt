-- ===== src/Topics/Dag/Update.antt =====
-- How changes of the file change its parent edges.
use codealmanac.Prelude.{
  Option, none, some, List, [], ◌∷◌, ◌++◌, ◌≡◌, refl, sym, ◌∙◌, ◌⊎◌, inl, inr, true, false, Text,
  same, same_sound, Bool-cases, Option-cases, if◌then◌else◌,
}
use codealmanac.Topics.File.{
  TopicEntry, TopicsFile, find_topic, ensure_topic, update_topic, minimal_entry,
}
use codealmanac.Topics.Dag.{parents_of, parents_list}

parents_of-some :
    (t : TopicEntry) (file : TopicsFile) (c : Text) {ps : List Text}
    → parents_of file c ≡ some ps
    → parents_of (t ∷ file) c ≡ some ps
unfolding parents_of
parents_of-some t file c h = rw (h, parents_of)

parents_of-none :
    (t : TopicEntry) (file : TopicsFile) (c : Text)
    → parents_of file c ≡ none
    → parents_of (t ∷ file) c ≡ (if same t.slug c then some t.parents else none)
unfolding parents_of
parents_of-none t file c h = rw (h, parents_of)

parents_of_cons :
    (t : TopicEntry) (file file' : TopicsFile) (c : Text)
    → parents_of file' c ≡ parents_of file c
    → parents_of (t ∷ file') c ≡ parents_of (t ∷ file) c
unfolding parents_of
parents_of_cons t file file' c h = rw (h, parents_of)

-- An assignment that keeps the slug and acts on the parents by `g` changes the parents of at most
-- the topic that it names.
module _ (change : TopicEntry → TopicEntry) (g : List Text → List Text)
    (slug_kept : (t : TopicEntry) → (change t).slug ≡ t.slug)
    (acts : (t : TopicEntry) → (change t).parents ≡ g t.parents) where
  abbrev IsChange : Text → Text → Option (List Text) → Option (List Text) → Type 0
  IsChange child c old new =
      (new ≡ old) ⊎ ((c ≡ child) × (ps : List Text) × (old ≡ some ps) × (new ≡ some (g ps)))

  IsChange-head :
      (t : TopicEntry) (file : TopicsFile) (child c : Text)
      → t.slug ≡ child
      → IsChange child c (parents_of (t ∷ file) c) (parents_of (change t ∷ file) c)
  IsChange-head t file child c e = elim (Option-cases (parents_of file c)) [
    | inr (ps, found) ↦
        inl (parents_of-some (change t) file c found ∙ sym (parents_of-some t file c found))
    | inl missing ↦ elim (Bool-cases (same t.slug c)) [
      | inl own ↦ inr (
        sym (same_sound t.slug c own) ∙ e,
        t.parents,
        rw (parents_of-none t file c missing, own),
        rw (parents_of-none (change t) file c missing, slug_kept t, own, acts t),
      )
      | inr other ↦ inl (
          rw (
            parents_of-none (change t) file c missing,
            parents_of-none t file c missing,
            slug_kept t,
            other,
          ))
    ]
  ]

  IsChange-tail :
      (t : TopicEntry) (file file' : TopicsFile) (child c : Text)
      → IsChange child c (parents_of file c) (parents_of file' c)
      → IsChange child c (parents_of (t ∷ file) c) (parents_of (t ∷ file') c)
  IsChange-tail t file file' child c (inl e) = inl (parents_of_cons t file file' c e)
  IsChange-tail t file file' child c (inr (e, ps, old, new)) =
      inr (e, ps, parents_of-some t file c old, parents_of-some t file' c new)

  pub parents_of-update_topic :
      (file : TopicsFile) (child c : Text)
      → IsChange child c (parents_of file c) (parents_of (update_topic change file child) c)
  unfolding update_topic
  parents_of-update_topic [] child c = inl refl
  parents_of-update_topic (t ∷ file) child c = elim (Bool-cases (same t.slug child)) [
    | inl own ↦ rw own (IsChange-head t file child c (same_sound t.slug child own))
    | inr other ↦ rw other (
        IsChange-tail t file (update_topic change file child) child c
          (parents_of-update_topic file child c))
  ]

parents_of_missing :
    (file : TopicsFile) (c : Text) → find_topic file c ≡ none → parents_of file c ≡ none
unfolding find_topic
parents_of_missing [] c h = unfold parents_of in refl
parents_of_missing (t ∷ file) c h = elim (Bool-cases (same t.slug c)) [
  | inl own ↦ cc (rw own at h)
  | inr other ↦ rw (parents_of-none t file c (parents_of_missing file c (rw other at h)), other)
]

pub parents_of-append_own :
    (file : TopicsFile) (entry : TopicEntry) (c : Text)
    → same entry.slug c ≡ true
    → parents_of (file ++ entry ∷ []) c ≡ some entry.parents
parents_of-append_own [] entry c own =
    rw (parents_of-none entry [] c (unfold parents_of in refl), own)
parents_of-append_own (t ∷ file) entry c own =
    parents_of-some t (file ++ entry ∷ []) c (parents_of-append_own file entry c own)

pub parents_of-append_other :
    (file : TopicsFile) (entry : TopicEntry) (c : Text)
    → same entry.slug c ≡ false
    → parents_of (file ++ entry ∷ []) c ≡ parents_of file c
parents_of-append_other [] entry c other =
    rw (parents_of-none entry [] c (unfold parents_of in refl), other) (unfold parents_of in refl)
parents_of-append_other (t ∷ file) entry c other =
    parents_of_cons t file (file ++ entry ∷ []) c (parents_of-append_other file entry c other)

parents_list_appended :
    (file : TopicsFile) (slug c : Text)
    → parents_of file slug ≡ none
    → parents_list (file ++ minimal_entry slug ∷ []) c ≡ parents_list file c
unfolding parents_list
parents_list_appended file slug c missing = elim (Bool-cases (same slug c)) [
  | inl own ↦
      let absent : parents_of file c ≡ none = rw (same_sound slug c own) at missing in
      rw (parents_of-append_own file (minimal_entry slug) c own, absent)
  | inr other ↦ rw (parents_of-append_other file (minimal_entry slug) c other)
]

-- Promoting a topic adds no edge and removes none.
pub parents_list-ensure_topic :
    (file : TopicsFile) (slug c : Text)
    → parents_list (ensure_topic file slug) c ≡ parents_list file c
unfolding ensure_topic
parents_list-ensure_topic file slug c = elim (Option-cases (find_topic file slug)) [
  | inl missing ↦
      rw (missing, ensure_topic)
        (parents_list_appended file slug c (parents_of_missing file slug missing))
  | inr (t, found) ↦ rw (found, ensure_topic)
]
