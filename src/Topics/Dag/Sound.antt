-- ===== src/Topics/Dag/Sound.antt =====
-- The set of `ancestorsInFile` against chains of parents: one inclusion.
use codealmanac.Prelude.{ℕ, zero, suc, ◌+◌, ◌≤◌, List, [], ◌∷◌, Text, In, inl, inr, arith}
use codealmanac.Topics.File.{TopicsFile}
use codealmanac.Topics.Dag.{dag_depth_cap, parents_list, visit, climb_rounds, ancestors_in_file}
use codealmanac.Topics.Dag.Climb.{Climb, here, up, IsParent, Climb-snoc}
use codealmanac.Topics.Dag.Round.{visit_seen, visit_next}

module _ (file : TopicsFile) (slug : Text) where
  -- The topic is an ancestor of `slug` at a distance of at most `n`.
  abbrev Within : ℕ → Text → Type 0
  Within n a = (d : ℕ) × (suc d ≤ n) × Climb file (suc d) slug a

  Within-parent :
      (n : ℕ) (child a : Text) → Within n child → IsParent file child a → Within (suc n) a
  Within-parent n child a (d, h, c) p = (suc d, omega arith, Climb-snoc c p)

  Within-weaken : (n m : ℕ) (a : Text) → n ≤ m → Within n a → Within m a
  Within-weaken n m a h (d, k, c) = (d, omega arith, c)

  climb_rounds_sound :
      (rounds n : ℕ) (frontier ancestors : List Text)
      → ((a : Text) → In a frontier → Within (suc n) a)
      → ((a : Text) → In a ancestors → Within n a)
      → (a : Text) → In a (climb_rounds file rounds frontier ancestors)
      → Within (n + rounds) a
  unfolding climb_rounds
  climb_rounds_sound zero n frontier ancestors near old a h =
      Within-weaken n (n + zero) a (omega arith) (old a h)
  climb_rounds_sound (suc rounds) n [] ancestors near old a h =
      Within-weaken n (n + suc rounds) a (omega arith) (old a h)
  climb_rounds_sound (suc rounds) n (node ∷ frontier) ancestors near old a h =
      Within-weaken (suc n + rounds) (n + suc rounds) a (omega arith)
        (climb_rounds_sound rounds (suc n) _ _ further seen a h)
    where
      seen : (x : Text) → In x (visit file (node ∷ frontier) ancestors []).0 → Within (suc n) x
      seen x i = elim (visit_seen file (node ∷ frontier) ancestors [] x i) [
        | inl f ↦ near x f
        | inr s ↦ Within-weaken n (suc n) x (omega arith) (old x s)
      ]

      further :
          (x : Text) → In x (visit file (node ∷ frontier) ancestors []).1 → Within (suc (suc n)) x
      further x i = elim (visit_next file (node ∷ frontier) ancestors [] x i) [
        | inl none_yet ↦ absurd none_yet
        | inr (child, f, p) ↦ Within-parent (suc n) child x (near child f) p
      ]

  pub ancestors_in_file_sound :
      (a : Text) → In a (ancestors_in_file file slug) → Within dag_depth_cap a
  unfolding ancestors_in_file
  ancestors_in_file_sound a h =
      climb_rounds_sound dag_depth_cap 0 (parents_list file slug) []
        (λ x p. (0, omega arith, up p here)) (λ x i. absurd i) a h
