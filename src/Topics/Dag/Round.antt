-- ===== src/Topics/Dag/Round.antt =====
-- One round of the traversal: what it adds to the set and to the next frontier.
use codealmanac.Prelude.{
  ◌≡◌, true, false, List, [], ◌∷◌, ◌++◌, Text, In, In-append, In-append_left, In-append_right,
  contains_iff, ◌⊎◌, inl, inr, refl, subst, sym, Bool-cases, contains,
}
use codealmanac.Topics.File.{TopicsFile}
use codealmanac.Topics.Dag.{parents_list, visit}
use codealmanac.Topics.Dag.Climb.{IsParent}

-- What a round adds: the set grows by the frontier, `next` by parents of the frontier.
module _ (file : TopicsFile) where
  visit_old :
      (node : Text) (frontier ancestors next : List Text)
      → contains node ancestors ≡ true
      → visit file (node ∷ frontier) ancestors next ≡ visit file frontier ancestors next
  unfolding visit
  visit_old node frontier ancestors next old = rw (old, visit)

  visit_new :
      (node : Text) (frontier ancestors next : List Text)
      → contains node ancestors ≡ false
      → visit file (node ∷ frontier) ancestors next
        ≡ visit file frontier (node ∷ ancestors) (next ++ parents_list file node)
  unfolding visit
  visit_new node frontier ancestors next new = rw (new, visit)

  pub visit_seen :
      (frontier ancestors next : List Text) (a : Text)
      → In a (visit file frontier ancestors next).0
      → In a frontier ⊎ In a ancestors
  unfolding visit
  visit_seen [] ancestors next a h = inr h
  visit_seen (node ∷ frontier) ancestors next a h = elim (Bool-cases (contains node ancestors)) [
    | inl old ↦
        elim (visit_seen frontier ancestors next a
          (rw (visit_old node frontier ancestors next old) at h)) [
            | inl f ↦ inl (inr f)
            | inr s ↦ inr s
          ]
    | inr new ↦
        elim (visit_seen frontier (node ∷ ancestors) (next ++ parents_list file node) a
          (rw (visit_new node frontier ancestors next new) at h)) [
            | inl f ↦ inl (inr f)
            | inr (inl e) ↦ inl (inl e)
            | inr (inr s) ↦ inr s
          ]
  ]

  pub visit_next :
      (frontier ancestors next : List Text) (a : Text)
      → In a (visit file frontier ancestors next).1
      → In a next ⊎ ((child : Text) × In child frontier × IsParent file child a)
  unfolding visit
  visit_next [] ancestors next a h = inl h
  visit_next (node ∷ frontier) ancestors next a h = elim (Bool-cases (contains node ancestors)) [
    | inl old ↦ later (
        visit_next frontier ancestors next a (rw (visit_old node frontier ancestors next old) at h))
    | inr new ↦
        elim (visit_next frontier (node ∷ ancestors) (next ++ parents_list file node) a
          (rw (visit_new node frontier ancestors next new) at h)) [
            | inl f ↦ elim (In-append a next (parents_list file node) f) [
              | inl n ↦ inl n
              | inr p ↦ inr (node, inl refl, p)
            ]
            | inr w ↦ later (inr w)
          ]
  ]
    where
      later :
          In a next ⊎ ((child : Text) × In child frontier × IsParent file child a)
          → In a next ⊎ ((child : Text) × In child (node ∷ frontier) × IsParent file child a)
      later (inl n) = inl n
      later (inr (child, f, p)) = inr (child, inr f, p)

  -- Nothing leaves the set or `next`.
  pub visit_keeps_seen :
      (frontier ancestors next : List Text) (a : Text)
      → In a ancestors
      → In a (visit file frontier ancestors next).0
  unfolding visit
  visit_keeps_seen [] ancestors next a h = h
  visit_keeps_seen (node ∷ frontier) ancestors next a h =
      elim (Bool-cases (contains node ancestors)) [
        | inl old ↦
            rw (visit_old node frontier ancestors next old)
              (visit_keeps_seen frontier ancestors next a h)
        | inr new ↦ rw (visit_new node frontier ancestors next new) (
            visit_keeps_seen frontier (node ∷ ancestors) (next ++ parents_list file node) a (inr h))
      ]

  pub visit_keeps_next :
      (frontier ancestors next : List Text) (a : Text)
      → In a next
      → In a (visit file frontier ancestors next).1
  unfolding visit
  visit_keeps_next [] ancestors next a h = h
  visit_keeps_next (node ∷ frontier) ancestors next a h =
      elim (Bool-cases (contains node ancestors)) [
        | inl old ↦
            rw (visit_old node frontier ancestors next old)
              (visit_keeps_next frontier ancestors next a h)
        | inr new ↦ rw (visit_new node frontier ancestors next new) (
            visit_keeps_next frontier (node ∷ ancestors) (next ++ parents_list file node) a
              (In-append_left a next (parents_list file node) h))
      ]

  -- The whole frontier enters the set.
  pub visit_covers :
      (frontier ancestors next : List Text) (a : Text)
      → In a frontier
      → In a (visit file frontier ancestors next).0
  unfolding visit
  visit_covers [] ancestors next a h = absurd h
  visit_covers (node ∷ frontier) ancestors next a h = elim (Bool-cases (contains node ancestors)) [
    | inl old ↦ rw (visit_old node frontier ancestors next old) (elim h [
      | inl e ↦
          visit_keeps_seen frontier ancestors next a
            (subst (λ x. In x ancestors) (sym e) ((contains_iff node ancestors).0 old))
      | inr f ↦ visit_covers frontier ancestors next a f
    ])
    | inr new ↦ rw (visit_new node frontier ancestors next new) (elim h [
      | inl e ↦
          visit_keeps_seen frontier (node ∷ ancestors) (next ++ parents_list file node) a (inl e)
      | inr f ↦ visit_covers frontier (node ∷ ancestors) (next ++ parents_list file node) a f
    ])
  ]

  -- Every parent of a topic in the set is in the set or the next frontier, if that held before.
  pub visit_closed :
      (frontier ancestors next : List Text)
      → ((child parent : Text)
          → In child ancestors
          → IsParent file child parent
          → In parent ancestors ⊎ In parent frontier ⊎ In parent next)
      → (child parent : Text) → In child (visit file frontier ancestors next).0
      → IsParent file child parent
      → In parent (visit file frontier ancestors next).0
        ⊎ In parent (visit file frontier ancestors next).1
  unfolding visit
  visit_closed [] ancestors next closed child parent h p = elim (closed child parent h p) [
    | inl s ↦ inl s
    | inr (inl f) ↦ absurd f
    | inr (inr n) ↦ inr n
  ]
  visit_closed (node ∷ frontier) ancestors next closed child parent h p =
      elim (Bool-cases (contains node ancestors)) [
        | inl old ↦ rw (visit_old node frontier ancestors next old) (
            visit_closed frontier ancestors next (still old) child parent
              (rw (visit_old node frontier ancestors next old) at h) p)
        | inr new ↦ rw (visit_new node frontier ancestors next new) (
            visit_closed frontier (node ∷ ancestors) (next ++ parents_list file node) wider child
              parent (rw (visit_new node frontier ancestors next new) at h) p)
      ]
    where
      still :
          contains node ancestors ≡ true
          → (c q : Text) → In c ancestors
          → IsParent file c q
          → In q ancestors ⊎ In q frontier ⊎ In q next
      still old c q i e = elim (closed c q i e) [
        | inl s ↦ inl s
        | inr (inl (inl e)) ↦
            inl (subst (λ x. In x ancestors) (sym e) ((contains_iff node ancestors).0 old))
        | inr (inl (inr f)) ↦ inr (inl f)
        | inr (inr n) ↦ inr (inr n)
      ]

      wider :
          (c q : Text)
          → In c (node ∷ ancestors)
          → IsParent file c q
          → In q (node ∷ ancestors) ⊎ In q frontier ⊎ In q (next ++ parents_list file node)
      wider c q (inl e) i = inr (
          inr
            (In-append_right q next (parents_list file node) (subst (λ x. IsParent file x q) e i)))
      wider c q (inr i) e = elim (closed c q i e) [
        | inl s ↦ inl (inr s)
        | inr (inl (inl e)) ↦ inl (inl e)
        | inr (inl (inr f)) ↦ inr (inl f)
        | inr (inr n) ↦ inr (inr (In-append_left q next (parents_list file node) n))
      ]
