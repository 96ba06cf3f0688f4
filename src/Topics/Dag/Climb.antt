-- ===== src/Topics/Dag/Climb.antt =====
-- The specification of `ancestorsInFile`: chains of parent edges.
use codealmanac.Prelude.{ℕ, zero, suc, ◌+◌, Text, In, subst, sym}
use native.Mathlib.Nat.{zero-add, suc-add}
use codealmanac.Topics.File.{TopicsFile}
use codealmanac.Topics.Dag.{parents_list}

-- `parent` is among the parents that the file gives to `child`.
abbrev pub IsParent : TopicsFile → Text → Text → Type 0
IsParent file child parent = In parent (parents_list file child)

-- A chain of `n` parent edges up from the first topic to the last.
pub data Climb (file : TopicsFile) : ℕ → Text → Text → Type 0 where
  here : {slug : Text} → Climb file zero slug slug
  up :
      {n : ℕ} {child parent top : Text}
      → IsParent file child parent
      → Climb file n parent top
      → Climb file (suc n) child top

pub Climb-trans :
    {file : TopicsFile} {n m : ℕ} {a b c : Text}
    → Climb file n a b
    → Climb file m b c
    → Climb file (n + m) a c
Climb-trans {file} {m} {a} {c} here k = subst (λ i. Climb file i a c) (sym (zero-add m)) k
Climb-trans {file} {m} {a} {c} (up {n = i} e h) k =
    subst (λ j. Climb file j a c) (sym (suc-add i m)) (up e (Climb-trans h k))

pub Climb-snoc :
    {file : TopicsFile} {n : ℕ} {a b c : Text}
    → Climb file n a b
    → IsParent file b c
    → Climb file (suc n) a c
Climb-snoc here p = up p here
Climb-snoc (up e h) p = up e (Climb-snoc h p)

-- No topic is its own ancestor, at any distance.
abbrev pub IsAcyclic : TopicsFile → Type 0
IsAcyclic file = (slug : Text) (n : ℕ) → ¬ Climb file (suc n) slug slug
