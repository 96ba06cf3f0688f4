-- ===== src/Topics/Dag.antt =====
-- `ancestorsInFile` (wiki/topics/dag.ts).
pub mod Climb
pub mod Round
pub mod Sound
pub mod Complete
pub mod Update
use codealmanac.Prelude.{
  ℕ, zero, suc, true, false, Option, none, some, List, [], ◌∷◌, ◌++◌, if◌then◌else◌, Text, same,
  contains, or_else,
}
use codealmanac.Topics.File.{TopicsFile}

abbrev pub dag_depth_cap : ℕ
dag_depth_cap = 32

-- `parentsOf.get(slug)`: a later entry of the file overwrites an earlier one in the map.
unfoldable pub parents_of : TopicsFile → Text → Option (List Text)
parents_of [] slug = none
parents_of (t ∷ file) slug = elim (parents_of file slug) [
  | some parents ↦ some parents
  | none ↦ if same t.slug slug then some t.parents else none
]

-- `parentsOf.get(slug) ?? []`
unfoldable pub parents_list : TopicsFile → Text → List Text
unfolding parents_of
parents_list file slug = or_else (parents_of file slug) []

-- The inner loop: one round over the frontier, with the set `ancestors` and the list `next`.
unfoldable pub visit : TopicsFile → List Text → List Text → List Text → List Text × List Text
visit file [] ancestors next = (ancestors, next)
visit file (node ∷ frontier) ancestors next = elim (contains node ancestors) [
  | true ↦ visit file frontier ancestors next
  | false ↦ visit file frontier (node ∷ ancestors) (next ++ parents_list file node)
]

-- The outer loop, with the rounds that are left before the depth cap.
unfoldable pub climb_rounds : TopicsFile → ℕ → List Text → List Text → List Text
climb_rounds file zero frontier ancestors = ancestors
climb_rounds file (suc rounds) [] ancestors = ancestors
climb_rounds file (suc rounds) (node ∷ frontier) ancestors =
    let (seen, next) = visit file (node ∷ frontier) ancestors [] in
    climb_rounds file rounds next seen

unfoldable pub ancestors_in_file : TopicsFile → Text → List Text
ancestors_in_file file slug = climb_rounds file dag_depth_cap (parents_list file slug) []
