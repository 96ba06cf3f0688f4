-- ===== src/Topics/Commands/Create/Laws.antt =====
-- What `topics create` leaves in the file.
use codealmanac.Prelude.{
  Option, none, some, List, [], ◌∷◌, ◌++◌, ◌≡◌, ◌≢◌, refl, Text, same_iff, same_refl, contains,
  contains_iff, Bool-cases, arith, In, In-append_left, In-append_right, All, All-In, inl, inr, ◌⊎◌,
  trim,
}
use codealmanac.Slug.{to_kebab_case}
use codealmanac.Topics.File.{TopicEntry, TopicsFile, find_topic, update_topic, ensure_topic}
use codealmanac.Topics.File.Laws.{find_topic-append_self, find_topic-update_topic_self}
use codealmanac.Topics.Dag.{parents_list}
use codealmanac.Topics.Dag.Climb.{here, up, IsAcyclic}
use codealmanac.Topics.Dag.Update.{parents_of-append_own, parents_of-append_other}
use codealmanac.Topics.Commands.{Reply, written, topic_exists, Promoted, promoted, stopped, promote}
use codealmanac.Topics.Commands.Link.{add_parent}
use codealmanac.Topics.Commands.Create.{
  requested_parents, check_parents, add_new_parent, add_parents, promote_title, new_entry,
  create_in, create_slug, run_topics_create, title_from,
}

-- The topic's entry in the file names all these parents.
abbrev pub Names : TopicsFile → Text → List Text → Type 0
Names file slug parents =
    (t : TopicEntry) × (find_topic file slug ≡ some t) × All (λ p. In p t.parents) parents

pub Promoted-cases :
    (m : Promoted) → ((f : TopicsFile) × (m ≡ promoted f)) ⊎ ((r : Reply) × (m ≡ stopped r))
Promoted-cases (promoted f) = inl (f, refl)
Promoted-cases (stopped r) = inr (r, refl)

add_new_parent-Names :
    (slug p : Text) (file g : TopicsFile) (t : TopicEntry)
    → find_topic file slug ≡ some t
    → add_new_parent slug p file (some t) ≡ promoted g
    → (u : TopicEntry) × (find_topic g slug ≡ some u)
      × In p u.parents
      × ((q : Text) → In q t.parents → In q u.parents)
unfolding add_new_parent
add_new_parent-Names slug p file g t found h = elim (Bool-cases (contains p t.parents)) [
  | inl old ↦ (t, ground arith, (contains_iff p t.parents).0 old, λ q k. k)
  | inr new ↦
      let e : g ≡ update_topic (add_parent p) file slug = ground arith in
      (
        add_parent p t,
        rw (e, find_topic-update_topic_self (add_parent p) (λ x. refl), found),
        In-append_right p t.parents (p ∷ []) (inl refl),
        λ q k. In-append_left q t.parents (p ∷ []) k,
      )
]

add_parents-Names :
    (slug : Text) (parents : List Text) (file g : TopicsFile) (t : TopicEntry)
    → find_topic file slug ≡ some t
    → add_parents slug parents file ≡ promoted g
    → (u : TopicEntry) × (find_topic g slug ≡ some u)
      × All (λ p. In p u.parents) parents
      × ((q : Text) → In q t.parents → In q u.parents)
unfolding add_parents
add_parents-Names slug [] file g t found h = (t, ground arith, tt, λ q k. k)
add_parents-Names slug (p ∷ parents) file g t found h =
    elim (Promoted-cases (add_new_parent slug p file (some t))) [
      | inr (reply, e) ↦ cc (rw (found, add_parents, e) at h)
      | inl (f, e) ↦
          let (u, at_u, listed, grows) = add_new_parent-Names slug p file f t found e in
          let (v, at_v, rest, grows') =
            add_parents-Names slug parents f g u at_u (rw (found, add_parents, e) at h) in
          (v, at_v, (grows' p listed, rest), λ q k. grows' q (grows q k))
    ]

All-of_In : {P : Text → Type 0} (xs : List Text) → ((x : Text) → In x xs → P x) → All P xs
All-of_In [] f = tt
All-of_In (x ∷ xs) f = (f x (inl refl), All-of_In xs (λ y k. f y (inr k)))

create_in-Names :
    (f new : TopicsFile) (slug title : Text) (parents : List Text) (o : Option TopicEntry)
    → find_topic f slug ≡ o
    → written (create_in f slug title parents o) ≡ some new
    → Names new slug parents
unfolding create_in
create_in-Names f new slug title parents none missing h =
    let e : new ≡ f ++ new_entry slug title parents ∷ [] = ground arith in
    (
      new_entry slug title parents,
      rw e (find_topic-append_self f (new_entry slug title parents) missing),
      All-of_In parents (λ p k. k),
    )
create_in-Names f new slug title parents (some t) found h =
    elim (Promoted-cases (add_parents slug parents f)) [
      | inr (reply, e) ↦ cc (rw e at h)
      | inl (g, e) ↦
          let (u, at_u, listed, grows) = add_parents-Names slug parents f g t found e in
          let r : new ≡ update_topic (promote_title slug title) g slug = ground arith in
          (
            promote_title slug title u,
            rw (r, find_topic-update_topic_self (promote_title slug title) slug_kept, at_u),
            All-of_In parents
                (λ p k. parents_kept u p (All-In (λ q. In q u.parents) parents p listed k)),
          )
    ]
  where
    slug_kept : (x : TopicEntry) → (promote_title slug title x).slug ≡ x.slug
    slug_kept x = ground arith

    parents_kept :
        (x : TopicEntry) (p : Text) → In p x.parents → In p (promote_title slug title x).parents
    parents_kept x p k = ground arith

create_slug-Names :
    (db : List Text) (file new : TopicsFile) (slug title : Text) (parents : List Text)
    → written (create_slug db file slug title parents) ≡ some new
    → Names new slug parents
unfolding create_slug
create_slug-Names db file new slug title parents h =
    elim (Promoted-cases (check_parents db slug parents file)) [
      | inr (reply, e) ↦ ground arith
      | inl (f, e) ↦
          create_in-Names f new slug title parents (find_topic f slug) refl (ground arith)
    ]

-- After `topics create` has written the file, the topic is in it and every requested parent is
-- among its parents.
pub run_topics_create-Names :
    (db : List Text) (file new : TopicsFile) (name : Text) (parents : List Text)
    → written (run_topics_create db file name parents) ≡ some new
    → Names new (to_kebab_case name) (requested_parents parents)
unfolding run_topics_create
run_topics_create-Names db file new name parents h =
    create_slug-Names db file new (to_kebab_case name) (title_from (trim name) (to_kebab_case name))
      (requested_parents parents) h

parents_list-append_self :
    (file : TopicsFile) (entry : TopicEntry)
    → parents_list (file ++ entry ∷ []) entry.slug ≡ entry.parents
unfolding parents_list
parents_list-append_self file entry =
    rw (parents_of-append_own file entry entry.slug (same_refl entry.slug))

parents_list-append_ne :
    (file : TopicsFile) (entry : TopicEntry) (c : Text)
    → entry.slug ≢ c
    → parents_list (file ++ entry ∷ []) c ≡ parents_list file c
unfolding parents_list
parents_list-append_ne file entry c h =
    rw (parents_of-append_other file entry c (ground (arith, same_iff entry.slug c)))

-- A topic that is not in the file, but that an entry names as a parent, can be created under that
-- entry, and this closes a cycle: the new entry is not checked.
pub create_slug_cycle :
    (db : List Text) (file : TopicsFile) (slug title a : Text) (t : TopicEntry)
    → slug ≢ []
    → slug ≢ a
    → find_topic file slug ≡ none
    → find_topic file a ≡ some t
    → In slug (parents_list file a)
    → (new : TopicsFile) × (written (create_slug db file slug title (a ∷ [])) ≡ some new)
      × ¬ IsAcyclic new
unfolding create_slug check_parents create_in promote ensure_topic topic_exists
create_slug_cycle db file slug title a t filled distinct fresh found named = (
  file ++ new_entry slug title (a ∷ []) ∷ [],
  ground (arith, same_iff a slug),
  λ acyclic.
      let entry = new_entry slug title (a ∷ []) in
      let to_a : In a (parents_list (file ++ entry ∷ []) slug) =
        rw (parents_list-append_self file entry) (inl refl) in
      let back : In slug (parents_list (file ++ entry ∷ []) a) =
        rw (parents_list-append_ne file entry a distinct) named in
      acyclic slug 1 (up to_a (up back here)),
)
