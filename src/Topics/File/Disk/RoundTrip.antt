-- ===== src/Topics/File/Disk/RoundTrip.antt =====
-- `writeTopicsFile`, then `loadTopicsFile` (wiki/topics/yaml.ts).
use mathlib.Core.List.{append_assoc, append-nil, Perm}
use mathlib.Core.List.Perm
use codealmanac.Prelude.{
  Apart, Apart-snoc, nothing_before, NoRepeats, Bool, false, true, ◌≡◌, ◌≢◌, refl, sym, ap, ◌∙◌,
  subst, Option, none, some, List, [], ◌∷◌, ◌++◌, map, inl, inr, Text, same_iff, contains_iff, trim,
  is_empty, In, All, All-weaken, nonempty_first, trim_of_IsSolid, arith, Bool-cases,
}
use codealmanac.Slug.Laws.{to_kebab_case_of_IsSlug, to_kebab_case-solid}
use codealmanac.Topics.File.{TopicEntry, TopicsFile}
use codealmanac.Topics.File.Disk.{
  text, loaded, filled_text, slug_of, add_slug, parents_from, normalize_parents, normalize_topic,
  normalize_topics, load_topics_file, text_or_null, dump_entry, insert_topic, sort_topics,
  write_topics_file,
}
use codealmanac.Topics.File.Disk.Normal.{IsTopicSlug, IsNormal}

-- A text that is not blank and has no white space at its ends.
pub record IsTrimmed (s : Text) : Type 0 where
  pub trimmed : trim s ≡ s
  pub filled : is_empty s ≡ false

abbrev pub IsTrimmedOption : Option Text → Type 0
IsTrimmedOption none = Unit
IsTrimmedOption (some s) = IsTrimmed s

-- An entry in the form that loading gives it.
pub record IsStored (t : TopicEntry) : Type 0 where
  pub normal : IsNormal t
  pub title : IsTrimmed t.title
  pub description : IsTrimmedOption t.description

filled_first : (s : Text) → s ≢ [] → is_empty s ≡ false
filled_first [] h = absurd (h refl)
filled_first (c ∷ s) h = refl

slug_of-text : (s : Text) → IsTopicSlug s → slug_of (text s) ≡ some s
unfolding slug_of
slug_of-text s (slug, some_left) =
    let same_slug = to_kebab_case_of_IsSlug s slug in
    let filled = filled_first s some_left in
    let (c, i) = nonempty_first s filled in
    let solid = to_kebab_case-solid s c (subst (λ u. In c u) (sym same_slug) i) in
    rw (trim_of_IsSolid s (c, i, solid), same_slug, filled) refl

filled_text_of_IsTrimmed : (s : Text) → IsTrimmed s → filled_text (text s) ≡ some s
unfolding filled_text
filled_text_of_IsTrimmed s h = rw (h.trimmed, h.filled) refl

filled_text-text_or_null : (o : Option Text) → IsTrimmedOption o → filled_text (text_or_null o) ≡ o
filled_text-text_or_null none h = unfold filled_text in refl
filled_text-text_or_null (some s) h = filled_text_of_IsTrimmed s h

add_slug_new :
    (slug p : Text) (before : List Text)
    → p ≢ slug
    → ¬ In p before
    → add_slug slug before (some p) ≡ before ++ p ∷ []
add_slug_new slug p before ne new = ground (arith, same_iff p slug, contains_iff p before)

parents_from-map_text :
    (slug : Text) (later before : List Text)
    → All IsTopicSlug later
    → All (λ p. p ≢ slug) later
    → NoRepeats later
    → Apart before later
    → parents_from slug before (map text later) ≡ before ++ later
unfolding parents_from
parents_from-map_text slug [] before slugs others repeats apart = sym (append-nil before)
parents_from-map_text slug (p ∷ later) before (slug_p, slugs) (ne, others) (new, repeats)
      (apart_p, apart) =
    ap (λ o. parents_from slug (add_slug slug before o) (map text later)) (slug_of-text p slug_p)
    ∙ ap (λ acc. parents_from slug acc (map text later)) (add_slug_new slug p before ne apart_p)
    ∙ parents_from-map_text slug later (before ++ p ∷ []) slugs others repeats
        (Apart-snoc before later p apart new)
    ∙ append_assoc before (p ∷ []) later

normalize_topic-dump_entry : (t : TopicEntry) → IsStored t → normalize_topic (dump_entry t) ≡ some t
unfolding normalize_topic normalize_parents
normalize_topic-dump_entry t h =
    rw
      (
        slug_of-text t.slug h.normal.slug,
        filled_text_of_IsTrimmed t.title h.title,
        filled_text-text_or_null t.description h.description,
        parents_from-map_text t.slug t.parents [] h.normal.parents h.normal.no_self
            h.normal.no_repeats (nothing_before t.parents),
      )
      refl

normalize_topics-dump_entry :
    (file : TopicsFile) → All IsStored file → normalize_topics (map dump_entry file) ≡ file
unfolding normalize_topics
normalize_topics-dump_entry [] h = refl
normalize_topics-dump_entry (t ∷ file) (h, hs) =
    rw (normalize_topic-dump_entry t h, normalize_topics-dump_entry file hs) refl

-- A comparison of texts, as `a.localeCompare(b) < 0` gives one: of two texts at most one precedes the
-- other, and a text that does not precede another one does not precede what that one does not
-- precede either.
pub record IsComparison (precedes : Text → Text → Bool) : Type 0 where
  pub asymmetric : (a b : Text) → precedes a b ≡ true → precedes b a ≡ false
  pub transitive :
      (a b c : Text) → precedes a b ≡ false → precedes b c ≡ false → precedes a c ≡ false

-- No entry precedes one that stands before it.
abbrev pub IsSorted : (Text → Text → Bool) → TopicsFile → Type 0
IsSorted precedes [] = Unit
IsSorted precedes (t ∷ file) =
    All (λ (u : TopicEntry). precedes u.slug t.slug ≡ false) file × IsSorted precedes file

module _ (precedes : Text → Text → Bool) where
  All-insert_topic :
      (P : TopicEntry → Type 0) (t : TopicEntry) (file : TopicsFile)
      → P t
      → All P file
      → All P (insert_topic precedes t file)
  unfolding insert_topic
  All-insert_topic P t [] h hs = (h, tt)
  All-insert_topic P t (u ∷ file) h (k, hs) = elim (Bool-cases (precedes u.slug t.slug)) [
    | inl earlier ↦ rw earlier (k, All-insert_topic P t file h hs)
    | inr later ↦ rw later (h, (k, hs))
  ]

  All-sort_topics :
      (P : TopicEntry → Type 0) (file : TopicsFile) → All P file → All P (sort_topics precedes file)
  unfolding sort_topics
  All-sort_topics P [] h = tt
  All-sort_topics P (t ∷ file) (h, hs) =
      All-insert_topic P t (sort_topics precedes file) h (All-sort_topics P file hs)

  insert_topic-IsSorted :
      IsComparison precedes
      → (t : TopicEntry) (file : TopicsFile) → IsSorted precedes file
      → IsSorted precedes (insert_topic precedes t file)
  unfolding insert_topic
  insert_topic-IsSorted order t [] h = (tt, tt)
  insert_topic-IsSorted order t (u ∷ file) (k, h) = elim (Bool-cases (precedes u.slug t.slug)) [
    | inl earlier ↦ rw earlier (
      All-insert_topic (λ v. precedes v.slug u.slug ≡ false) t file
          (order.asymmetric u.slug t.slug earlier) k,
      insert_topic-IsSorted order t file h,
    )
    | inr later ↦ rw later (
      (
        later,
        All-weaken {P = λ (v : TopicEntry). precedes v.slug u.slug ≡ false} file
            (λ v e. order.transitive v.slug u.slug t.slug e later) k,
      ),
      (k, h),
    )
  ]

  sort_topics-IsSorted :
      IsComparison precedes → (file : TopicsFile) → IsSorted precedes (sort_topics precedes file)
  unfolding sort_topics
  sort_topics-IsSorted order [] = tt
  sort_topics-IsSorted order (t ∷ file) =
      insert_topic-IsSorted order t (sort_topics precedes file) (sort_topics-IsSorted order file)

  insert_topic-Perm :
      (t : TopicEntry) (file : TopicsFile) → Perm (insert_topic precedes t file) (t ∷ file)
  unfolding insert_topic
  insert_topic-Perm t [] = Perm.refl (t ∷ [])
  insert_topic-Perm t (u ∷ file) = elim (Bool-cases (precedes u.slug t.slug)) [
    | inl earlier ↦
        rw earlier (Perm.trans (Perm.cons u (insert_topic-Perm t file)) (Perm.swap t u file))
    | inr later ↦ rw later (Perm.refl (t ∷ u ∷ file))
  ]

  sort_topics-Perm : (file : TopicsFile) → Perm (sort_topics precedes file) file
  unfolding sort_topics
  sort_topics-Perm [] = Perm.refl []
  sort_topics-Perm (t ∷ file) =
      Perm.trans (insert_topic-Perm t (sort_topics precedes file))
        (Perm.cons t (sort_topics-Perm file))

  -- Let the comparison of slugs be asymmetric and transitive. A topics file in the form that loading
  -- gives it (slugs that are slugs, titles and descriptions trimmed and not blank, parents without
  -- repeats) is read back with the same entries, each as often as before, sorted by slug.
  pub load_topics_file-write_topics_file :
      (file : TopicsFile)
      → IsComparison precedes
      → All IsStored file
      → (read : TopicsFile) × (load_topics_file (write_topics_file precedes file) ≡ loaded read)
        × Perm read file
        × IsSorted precedes read
  unfolding load_topics_file write_topics_file
  load_topics_file-write_topics_file file order h = (
    sort_topics precedes file,
    ap loaded
        (normalize_topics-dump_entry (sort_topics precedes file) (All-sort_topics IsStored file h)),
    sort_topics-Perm file,
    sort_topics-IsSorted order file,
  )
