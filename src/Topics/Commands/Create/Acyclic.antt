-- ===== src/Topics/Commands/Create/Acyclic.antt =====
-- `topics create` for a topic that is in the file (create.ts), and cycles.
use codealmanac.Prelude.{◌≡◌, ◌⊎◌, Text}
use codealmanac.Topics.File.{TopicsFile}
use codealmanac.Topics.Dag.Climb.{Climb, IsParent, IsAcyclic}

-- `new` has the edges of `old`, and others that begin at `slug` only.
record IsGrown (old new : TopicsFile) (slug : Text) : Type 0 where
  kept : (a b : Text) → IsParent old a b → IsParent new a b
  added : (a b : Text) → IsParent new a b → IsParent old a b ⊎ (a ≡ slug)

-- What the loop keeps: the file has grown at the topic only, and is acyclic.
abbrev IsSound : TopicsFile → Text → TopicsFile → Type 0
IsSound file slug g = IsGrown file g slug × IsAcyclic g
