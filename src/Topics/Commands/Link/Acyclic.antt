-- ===== src/Topics/Commands/Link/Acyclic.antt =====
-- `topics link` (cli/commands/topics/link.ts) and cycles.
use codealmanac.Prelude.{
  ℕ, zero, suc, ◌≤◌, ◌≡◌, sym, subst, false, Option, some, List, [], ◌∷◌, ◌++◌, In, In-append, ◌⊎◌,
  inl, inr, Text, same, same_refl, contains, contains_iff, arith, refl, ◌∙◌,
}
use codealmanac.Slug.{to_kebab_case}
use codealmanac.Topics.File.{TopicsFile, TopicEntry, find_topic, update_topic, ensure_topic}
use codealmanac.Topics.Dag.{ancestors_in_file, dag_depth_cap, parents_list}
use codealmanac.Topics.Dag.Climb.{Climb, here, up, IsParent, IsAcyclic, Climb-trans}
use codealmanac.Topics.Dag.Complete.{ancestors_in_file_iff}
use codealmanac.Topics.Dag.Update.{parents_of-update_topic, parents_list-ensure_topic}
use codealmanac.Topics.Commands.{written, promote, promoted}
use codealmanac.Topics.Commands.Link.{add_parent, link_found, link_slugs, run_topics_link}

-- A climb, possibly of no step.
abbrev pub Reaches : TopicsFile → Text → Text → Type 0
Reaches file a b = (n : ℕ) × Climb file n a b

-- Every edge of the new file is an edge of the old one, or the edge from `child` to `parent`.
abbrev pub OneMore : TopicsFile → TopicsFile → Text → Text → Type 0
OneMore old new child parent =
    (a b : Text) → IsParent new a b → IsParent old a b ⊎ ((a ≡ child) × (b ≡ parent))

-- A climb in the new file is one of the old file, or uses the new edge: then its start reaches the
-- child, and the parent reaches its end, in the old file.
Climb-split :
    {old new : TopicsFile} {child parent : Text} {n : ℕ} {a b : Text}
    → OneMore old new child parent
    → Climb new n a b
    → Climb old n a b ⊎ (Reaches old a child × Reaches old parent b)
Climb-split more here = inl here
Climb-split {old} {child} {parent} more (up {n = i} {child = a} {parent = y} {top = b} e h) =
    elim (more a y e) [
      | inl kept ↦ elim (Climb-split more h) [
        | inl c ↦ inl (up kept c)
        | inr ((n, c), r) ↦ inr ((suc n, up kept c), r)
      ]
      | inr (is_child, is_parent) ↦ inr (
        (zero, subst (λ x. Climb old zero a x) is_child here),
        elim (Climb-split more h) [
          | inl c ↦ (i, subst (λ x. Climb old i x b) is_parent c)
          | inr (_, r) ↦ r
        ],
      )
    ]

-- If the parent does not reach the child, the new edge closes no cycle.
pub OneMore-IsAcyclic :
    {old new : TopicsFile} {child parent : Text}
    → OneMore old new child parent
    → IsAcyclic old
    → ((n : ℕ) → ¬ Climb old n parent child)
    → IsAcyclic new
OneMore-IsAcyclic more acyclic apart slug n c = elim (Climb-split more c) [
  | inl old ↦ acyclic slug n old
  | inr ((_, to_child), (_, from_parent)) ↦ apart _ (Climb-trans from_parent to_child)
]

pub update-OneMore :
    (file : TopicsFile) (child parent : Text)
    → OneMore file (update_topic (add_parent parent) file child) child parent
unfolding parents_list
update-OneMore file child parent a b h =
    elim (parents_of-update_topic (add_parent parent) (λ ps. ps ++ parent ∷ []) (λ t. refl)
      (λ t. refl) file child a) [
        | inl e ↦ inl (rw e at h)
        | inr (is_child, ps, old, new) ↦ elim (In-append b ps (parent ∷ []) (rw new at h)) [
          | inl kept ↦ inl (rw old kept)
          | inr (inl e) ↦ inr (is_child, e)
          | inr (inr none_left) ↦ absurd none_left
        ]
      ]

pub promote-eq-promoted :
    (db : List Text) (file f : TopicsFile) (slug : Text)
    → promote db file slug ≡ promoted f
    → f ≡ ensure_topic file slug
unfolding promote
promote-eq-promoted db file f slug h = ground arith

record IsLinked (db : List Text) (file new : TopicsFile) (child parent : Text) : Type 0 where
  base : TopicsFile
  same_edges : (c : Text) → parents_list base c ≡ parents_list file c
  apart : contains child (ancestors_in_file base parent) ≡ false
  distinct : same parent child ≡ false
  result : new ≡ update_topic (add_parent parent) base child

link_found-written :
    (f new : TopicsFile) (child parent : Text) (o : Option TopicEntry)
    → written (link_found f child parent o) ≡ some new
    → (contains child (ancestors_in_file f parent) ≡ false)
      × (same parent child ≡ false)
      × (new ≡ update_topic (add_parent parent) f child)
unfolding link_found
link_found-written f new child parent o h = ground arith

link_slugs-IsLinked :
    (db : List Text) (file new : TopicsFile) (child parent : Text)
    → written (link_slugs db file child parent) ≡ some new
    → IsLinked db file new child parent
unfolding link_slugs promote
link_slugs-IsLinked db file new child parent h =
    let base = ensure_topic (ensure_topic file child) parent in
    let (apart, distinct, result) =
      link_found-written base new child parent (find_topic base child) (ground arith) in
    record {
      base = base;
      same_edges = λ c.
          parents_list-ensure_topic (ensure_topic file child) parent c
          ∙ parents_list-ensure_topic file child c;
      apart = apart;
      distinct = distinct;
      result = result;
    }

-- No chain of parents is longer than the depth cap.
abbrev pub IsShallow : TopicsFile → Type 0
IsShallow file = (n : ℕ) (a b : Text) → Climb file n a b → n ≤ dag_depth_cap

pub Climb-same_edges :
    {f g : TopicsFile} {n : ℕ} {a b : Text}
    → ((c : Text) → parents_list f c ≡ parents_list g c)
    → Climb f n a b
    → Climb g n a b
Climb-same_edges e here = here
Climb-same_edges e (up {child = c} {parent = p} h k) =
    up (subst (λ ps. In p ps) (e c) h) (Climb-same_edges e k)

-- With the two tests of `link` passed, the parent does not reach the child at any distance.
no-Climb :
    (file : TopicsFile) (child parent : Text)
    → IsShallow file
    → contains child (ancestors_in_file file parent) ≡ false
    → same parent child ≡ false
    → (n : ℕ) → ¬ Climb file n parent child
no-Climb file child parent shallow apart distinct zero here = cc (same_refl child)
no-Climb file child parent shallow apart distinct (suc n) c =
    let within =
      (ancestors_in_file_iff file parent child).1 (n, shallow (suc n) parent child c, c) in
    cc ((contains_iff child (ancestors_in_file file parent)).1 within)

-- `link` never closes a cycle: if the file is acyclic and no chain of parents in it is longer
-- than 32, every file that `topics link` writes is acyclic.
pub run_topics_link-IsAcyclic :
    (db : List Text) (file new : TopicsFile) (child parent : Text)
    → IsAcyclic file
    → IsShallow file
    → written (run_topics_link db file child parent) ≡ some new
    → IsAcyclic new
unfolding run_topics_link
run_topics_link-IsAcyclic db file new child parent acyclic shallow h =
    slugs-IsAcyclic (to_kebab_case child) (to_kebab_case parent)
      (link_slugs-IsLinked db file new (to_kebab_case child) (to_kebab_case parent) h)
  where
    slugs-IsAcyclic : (c p : Text) → IsLinked db file new c p → IsAcyclic new
    slugs-IsAcyclic c p l =
        let base_shallow : IsShallow l.base =
          λ n a b k. shallow n a b (Climb-same_edges l.same_edges k) in
        let apart = no-Climb l.base c p base_shallow l.apart l.distinct in
        subst IsAcyclic (sym l.result) (
          OneMore-IsAcyclic (update-OneMore l.base c p)
            (λ s n k. acyclic s n (Climb-same_edges l.same_edges k)) apart)
