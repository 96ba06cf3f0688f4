-- ===== src/Topics/Dag/Complete.antt =====
-- `ancestorsInFile` against chains of parents (wiki/topics/dag.ts).
use codealmanac.Prelude.{ℕ, zero, suc, ◌+◌, ◌≤◌, List, [], ◌∷◌, Text, In, ◌⊎◌, inl, inr, arith, ◌↔◌}
use codealmanac.Topics.File.{TopicsFile}
use codealmanac.Topics.Dag.{dag_depth_cap, parents_list, visit, climb_rounds, ancestors_in_file}
use codealmanac.Topics.Dag.Climb.{Climb, here, up, IsParent}
use codealmanac.Topics.Dag.Round.{visit_keeps_seen, visit_covers, visit_closed}
use codealmanac.Topics.Dag.Sound.{ancestors_in_file_sound}

module _ (file : TopicsFile) where
  -- Every parent of a topic in the set stands in the set or the frontier.
  abbrev IsClosed : List Text → List Text → Type 0
  IsClosed ancestors frontier =
      (child parent : Text)
      → In child ancestors
      → IsParent file child parent
      → In parent ancestors ⊎ In parent frontier

  climb_rounds_keeps :
      (rounds : ℕ) (frontier ancestors : List Text) (a : Text)
      → In a ancestors
      → In a (climb_rounds file rounds frontier ancestors)
  unfolding climb_rounds
  climb_rounds_keeps zero frontier ancestors a h = h
  climb_rounds_keeps (suc rounds) [] ancestors a h = h
  climb_rounds_keeps (suc rounds) (node ∷ frontier) ancestors a h =
      climb_rounds_keeps rounds _ _ a (visit_keeps_seen file (node ∷ frontier) ancestors [] a h)

  closed-Climb :
      {n : ℕ} {x a : Text} (ancestors : List Text)
      → IsClosed ancestors []
      → Climb file n x a
      → In x ancestors
      → In a ancestors
  closed-Climb ancestors closed here h = h
  closed-Climb ancestors closed (up {child} {parent} e c) h = elim (closed child parent h e) [
    | inl s ↦ closed-Climb ancestors closed c s
    | inr f ↦ absurd f
  ]

  -- The invariant of the outer loop, kept by a round over the frontier.
  round-IsClosed :
      (frontier ancestors : List Text)
      → IsClosed ancestors frontier
      → IsClosed (visit file frontier ancestors []).0 (visit file frontier ancestors []).1
  round-IsClosed frontier ancestors closed =
      visit_closed file frontier ancestors []
        λ child parent s p. elim (closed child parent s p) [ inl t ↦ inl t | inr f ↦ inr (inl f) ]

  round_covers :
      (frontier ancestors : List Text) (x : Text)
      → In x ancestors ⊎ In x frontier
      → In x (visit file frontier ancestors []).0
  round_covers frontier ancestors x (inl s) = visit_keeps_seen file frontier ancestors [] x s
  round_covers frontier ancestors x (inr f) = visit_covers file frontier ancestors [] x f

  climb_rounds_complete :
      (rounds : ℕ) {n : ℕ} (frontier ancestors : List Text) {x a : Text}
      → IsClosed ancestors frontier
      → n + 1 ≤ rounds
      → Climb file n x a
      → In x ancestors ⊎ In x frontier
      → In a (climb_rounds file rounds frontier ancestors)
  unfolding climb_rounds
  climb_rounds_complete zero frontier ancestors closed h c i = absurd (omega arith)
  climb_rounds_complete (suc rounds) [] ancestors closed h c (inl s) =
      closed-Climb ancestors closed c s
  climb_rounds_complete (suc rounds) [] ancestors closed h c (inr f) = absurd f
  climb_rounds_complete (suc rounds) (node ∷ frontier) ancestors {x} closed h here i =
      climb_rounds_keeps rounds _ _ x (round_covers (node ∷ frontier) ancestors x i)
  climb_rounds_complete (suc rounds) (node ∷ frontier) ancestors {x} closed h (up {parent = y} e c)
        i =
      climb_rounds_complete rounds _ _ (round-IsClosed (node ∷ frontier) ancestors closed)
        (omega arith) c
        (round-IsClosed (node ∷ frontier) ancestors closed x y
          (round_covers (node ∷ frontier) ancestors x i) e)

-- `ancestorsInFile` reports exactly the topics that some chain of one to 32 parent edges reaches.
pub ancestors_in_file_iff :
    (file : TopicsFile) (slug a : Text)
    → In a (ancestors_in_file file slug)
      ↔ ((n : ℕ) × (suc n ≤ dag_depth_cap) × Climb file (suc n) slug a)
unfolding ancestors_in_file
ancestors_in_file_iff file slug a = (ancestors_in_file_sound file slug a, found)
  where
    found :
        (n : ℕ) × (suc n ≤ dag_depth_cap) × Climb file (suc n) slug a
        → In a (climb_rounds file dag_depth_cap (parents_list file slug) [])
    found (n, h, up e c) =
        climb_rounds_complete file dag_depth_cap (parents_list file slug) [] (λ x y i. absurd i)
          (omega arith) c (inr e)
