-- ===== src/Topics/File/Laws.antt =====
-- How `find_topic` sees a file that has been changed.
use mathlib.Core.Option
use codealmanac.Prelude.{
  ◌⊎◌, inl, inr, Bool-cases, Option-cases, none, some, [], ◌∷◌, ◌++◌, map, ◌≡◌, ◌≢◌, refl, sym, ◌∙◌,
  Text, same, same_iff, false, arith,
}
use codealmanac.Topics.File.{
  TopicEntry, TopicsFile, find_topic, update_topic, ensure_topic, minimal_entry,
}

module _ (change : TopicEntry → TopicEntry) where
  pub find_topic-map :
      ((t : TopicEntry) → (change t).slug ≡ t.slug)
      → (file : TopicsFile) (s : Text)
      → find_topic (map change file) s ≡ Option.map change (find_topic file s)
  unfolding find_topic
  find_topic-map kept [] s = refl
  find_topic-map kept (t ∷ file) s = ground (arith, kept t, find_topic-map kept file s)

  pub find_topic-update_topic_ne :
      (s : Text)
      → ((t : TopicEntry) → same (change t).slug s ≡ false)
      → (file : TopicsFile) (slug : Text) → slug ≢ s
      → find_topic (update_topic change file slug) s ≡ find_topic file s
  unfolding find_topic update_topic
  find_topic-update_topic_ne s other [] slug h = refl
  find_topic-update_topic_ne s other (t ∷ file) slug h = ground (
    arith,
    other t,
    find_topic-update_topic_ne s other file slug h,
    same_iff t.slug slug,
    same_iff t.slug s,
  )

  -- A slug that no entry has is found where the assignment puts it.
  pub find_topic-update_topic_moved :
      (new_slug : Text)
      → ((t : TopicEntry) → (change t).slug ≡ new_slug)
      → (file : TopicsFile) (slug : Text) → find_topic file new_slug ≡ none
      → find_topic (update_topic change file slug) new_slug
        ≡ Option.map change (find_topic file slug)
  unfolding find_topic update_topic
  find_topic-update_topic_moved new_slug put [] slug h = refl
  find_topic-update_topic_moved new_slug put (t ∷ file) slug h = ground (
    arith,
    put t,
    same_iff (change t).slug new_slug,
    find_topic-update_topic_moved new_slug put file slug,
  )

  pub find_topic-update_topic_self :
      ((t : TopicEntry) → (change t).slug ≡ t.slug)
      → (file : TopicsFile) (slug : Text)
      → find_topic (update_topic change file slug) slug ≡ Option.map change (find_topic file slug)
  unfolding find_topic update_topic
  find_topic-update_topic_self kept [] slug = refl
  find_topic-update_topic_self kept (t ∷ file) slug =
      ground (arith, kept t, find_topic-update_topic_self kept file slug)

-- `ensureTopic` finds the topic afterwards, and changes nothing for others.
pub find_topic-append_ne :
    (file : TopicsFile) (entry : TopicEntry) (s : Text)
    → entry.slug ≢ s
    → find_topic (file ++ entry ∷ []) s ≡ find_topic file s
unfolding find_topic
find_topic-append_ne [] entry s h = ground (arith, same_iff entry.slug s)
find_topic-append_ne (t ∷ file) entry s h = ground (arith, find_topic-append_ne file entry s h)

pub find_topic-append_self :
    (file : TopicsFile) (entry : TopicEntry)
    → find_topic file entry.slug ≡ none
    → find_topic (file ++ entry ∷ []) entry.slug ≡ some entry
unfolding find_topic
find_topic-append_self [] entry h = ground (arith, same_iff entry.slug entry.slug)
find_topic-append_self (t ∷ file) entry h = ground (arith, find_topic-append_self file entry)

-- Each entry that `file` has is found in `file'` too.
abbrev pub Extends : TopicsFile → TopicsFile → Type 0
Extends file file' =
    (slug : Text) → (find_topic file slug ≡ none) ⊎ (find_topic file' slug ≡ find_topic file slug)

find_topic-snoc :
    (file : TopicsFile) (t : TopicEntry) (slug : Text)
    → (find_topic file slug ≡ none) ⊎ (find_topic (file ++ t ∷ []) slug ≡ find_topic file slug)
unfolding find_topic
find_topic-snoc [] t slug = inl refl
find_topic-snoc (x ∷ file) t slug = elim (Bool-cases (same x.slug slug)) [
  | inl own ↦ inr (rw own refl)
  | inr other ↦ rw other (find_topic-snoc file t slug)
]

pub ensure_topic-Extends : (file : TopicsFile) (slug : Text) → Extends file (ensure_topic file slug)
unfolding ensure_topic
ensure_topic-Extends file slug s = elim (Option-cases (find_topic file slug)) [
  | inl e ↦ rw (e, ensure_topic) (find_topic-snoc file (minimal_entry slug) s)
  | inr (t, e) ↦ rw (e, ensure_topic) (inr refl)
]

pub Extends-trans : (a b c : TopicsFile) → Extends a b → Extends b c → Extends a c
Extends-trans a b c h k slug = elim (h slug) [
  | inl e ↦ inl e
  | inr e ↦ elim (k slug) [ inl f ↦ inl (sym e ∙ f) | inr f ↦ inr (f ∙ e) ]
]
