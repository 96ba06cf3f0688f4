-- ===== src/Topics/File/Disk/Normal.antt =====
-- The form of what `loadTopicsFile` returns (wiki/topics/yaml.ts).
use codealmanac.Prelude.{
  NoRepeats, NoRepeats-snoc, Bool, true, false, ◌||◌, ◌≡◌, ◌≢◌, refl, subst, Option, none, some,
  List, [], ◌∷◌, inl, inr, Text, same, same_iff, contains, contains_iff, trim, is_empty, ◌∙◌, All,
  All-append, arith, Bool-cases, Option-cases,
}
use codealmanac.Slug.{to_kebab_case}
use codealmanac.Slug.Laws.{IsSlug, to_kebab_case-IsSlug}
use codealmanac.Topics.File.{TopicEntry, TopicsFile}
use codealmanac.Topics.File.Disk.{
  Value, other, text, RawParents, no_list, listed, RawFields, RawTopic, no_mapping, mapping,
  Document, blank, no_topics, topics_no_list, not_a_mapping, topics, loaded, slug_of, add_slug,
  parents_from, normalize_parents, entry_with, normalize_topic, put_some, normalize_topics,
  load_topics_file,
}

-- A slug, and not the empty one.
abbrev pub IsTopicSlug : Text → Type 0
IsTopicSlug s = IsSlug s × (s ≢ [])

pub record IsNormal (t : TopicEntry) : Type 0 where
  pub slug : IsTopicSlug t.slug
  pub parents : All IsTopicSlug t.parents
  pub no_self : All (λ p. p ≢ t.slug) t.parents
  pub no_repeats : NoRepeats t.parents

nonempty : (b : Bool) {s : Text} → s ≡ [] → b || is_empty s ≡ false → ⊥
nonempty b e h = nothing_left b (rw e at h)
  where
    nothing_left : (b : Bool) → b || true ≡ false → ⊥
    nothing_left true k = absurd (cc k)
    nothing_left false k = absurd (cc k)

slug_of-IsTopicSlug : (value : Value) (s : Text) → slug_of value ≡ some s → IsTopicSlug s
unfolding slug_of
slug_of-IsTopicSlug other s h = absurd (cc h)
slug_of-IsTopicSlug (text raw) s h =
    elim (Bool-cases (is_empty (trim raw) || is_empty (to_kebab_case raw))) [
      | inl nothing ↦ absurd (cc (rw (nothing, slug_of) at h))
      | inr filled ↦
          let e : to_kebab_case raw ≡ s = cc (rw (filled, slug_of) at h) in
          (
            subst IsSlug e (to_kebab_case-IsSlug raw),
            λ k. nonempty (is_empty (trim raw)) (e ∙ k) filled,
          )
    ]

-- What the loop keeps of the list of parents.
record AreParents (slug : Text) (parents : List Text) : Type 0 where
  slugs : All IsTopicSlug parents
  no_self : All (λ p. p ≢ slug) parents
  no_repeats : NoRepeats parents

add_slug-AreParents :
    (slug : Text) (parents : List Text) (value : Value)
    → AreParents slug parents
    → AreParents slug (add_slug slug parents (slug_of value))
add_slug-AreParents slug parents value h = elim (Option-cases (slug_of value)) [
  | inl absent ↦ rw absent h
  | inr (p, e) ↦ elim (Bool-cases (same p slug || contains p parents)) [
    | inl old ↦ rw (e, old) h
    | inr new ↦
        rw (e, new)
          (record {
            slugs =
                All-append IsTopicSlug parents (p ∷ []) h.slugs (slug_of-IsTopicSlug value p e, tt);
            no_self =
                All-append (λ q. q ≢ slug) parents (p ∷ []) h.no_self
                  ((λ k. ground (arith, same_iff p slug)), tt);
            no_repeats =
                NoRepeats-snoc parents p h.no_repeats (λ i. ground (arith, contains_iff p parents));
          })
  ]
]

parents_from-AreParents :
    (slug : Text) (values : List Value) (parents : List Text)
    → AreParents slug parents
    → AreParents slug (parents_from slug parents values)
unfolding parents_from
parents_from-AreParents slug [] parents h = h
parents_from-AreParents slug (value ∷ values) parents h =
    parents_from-AreParents slug values _ (add_slug-AreParents slug parents value h)

normalize_parents-AreParents :
    (slug : Text) (raw : RawParents) → AreParents slug (normalize_parents slug raw)
unfolding normalize_parents
normalize_parents-AreParents slug no_list = record { slugs = tt; no_self = tt; no_repeats = tt }
normalize_parents-AreParents slug (listed values) =
    parents_from-AreParents slug values [] (record { slugs = tt; no_self = tt; no_repeats = tt })

entry_with-IsNormal :
    (raw : RawFields) (o : Option Text) (file : TopicsFile)
    → ((s : Text) → o ≡ some s → IsTopicSlug s)
    → All IsNormal file
    → All IsNormal (put_some (entry_with raw o) file)
entry_with-IsNormal raw none file f h = h
entry_with-IsNormal raw (some slug) file f h =
    let parents = normalize_parents-AreParents slug raw.parents in
    (
      record {
        slug = f slug refl;
        parents = parents.slugs;
        no_self = parents.no_self;
        no_repeats = parents.no_repeats;
      },
      h,
    )

normalize_topics-IsNormal : (raw : List RawTopic) → All IsNormal (normalize_topics raw)
unfolding normalize_topics normalize_topic
normalize_topics-IsNormal [] = tt
normalize_topics-IsNormal (no_mapping ∷ rest) = normalize_topics-IsNormal rest
normalize_topics-IsNormal (mapping raw ∷ rest) =
    entry_with-IsNormal raw (slug_of raw.slug) (normalize_topics rest)
      (slug_of-IsTopicSlug raw.slug) (normalize_topics-IsNormal rest)

-- Whatever the document holds, if it loads, each topic's slug and parents are slugs and not empty,
-- no topic is its own parent, and no topic has a parent twice.
pub load_topics_file-IsNormal :
    (document : Document) (file : TopicsFile)
    → load_topics_file document ≡ loaded file
    → All IsNormal file
unfolding load_topics_file
load_topics_file-IsNormal blank file h = let e : [] ≡ file = cc h in subst (All IsNormal) e tt
load_topics_file-IsNormal no_topics file h = let e : [] ≡ file = cc h in subst (All IsNormal) e tt
load_topics_file-IsNormal not_a_mapping file h = absurd (cc h)
load_topics_file-IsNormal topics_no_list file h = absurd (cc h)
load_topics_file-IsNormal (topics raw) file h =
    let e : normalize_topics raw ≡ file = cc h in
    subst (All IsNormal) e (normalize_topics-IsNormal raw)
