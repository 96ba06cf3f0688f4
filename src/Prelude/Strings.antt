-- ===== src/Prelude/Strings.antt =====
-- A JavaScript string is the list of its UTF-16 code units. Texts are compared by `same`.
use Prim.Native.Nat.{ℕ}
use Prim.Native.Char.{code}
use Prim.Native.String.{String}
use mathlib.Core.Path.{◌≡◌, refl}
use mathlib.Core.Logic.{◌↔◌}
use mathlib.Core.Bool.{Bool, true, false, ◌&&◌, ◌||◌}
use mathlib.Core.List.{List, [], ◌∷◌}
use native.Mathlib.Omega.{arith}
use codealmanac.Prelude.Tests.{◌==◌}
use codealmanac.Prelude.Lists.{In}

abbrev pub Text : Type 0
Text = List ℕ

-- The code units of a literal (all literals here are ASCII).
abbrev pub codes : String → Text
codes String.[] = []
codes (String.◌∷◌ c s) = code c ∷ codes s

-- `a === b` on strings
unfoldable pub same : Text → Text → Bool
same [] [] = true
same (x ∷ xs) (y ∷ ys) = (x == y) && same xs ys
same _ _ = false

pub same_sound : (a b : Text) → same a b ≡ true → a ≡ b
unfolding same
same_sound [] [] h = refl
same_sound (x ∷ xs) (y ∷ ys) h = ground (arith, same_sound xs ys)
same_sound _ _ h = ground arith

pub same_refl : (a : Text) → same a a ≡ true
unfolding same
same_refl [] = refl
same_refl (x ∷ xs) = ground (arith, same_refl xs)

pub same_iff : (a b : Text) → (same a b ≡ true) ↔ (a ≡ b)
same_iff a b = (same_sound a b, λ e. subst_same e)
  where
    subst_same : a ≡ b → same a b ≡ true
    subst_same e = rw e (same_refl b)

-- `list.includes(a)`, `set.has(a)`
unfoldable pub contains : Text → List Text → Bool
contains a [] = false
contains a (x ∷ xs) = same a x || contains a xs

pub contains_iff : (a : Text) (xs : List Text) → (contains a xs ≡ true) ↔ In a xs
unfolding contains
contains_iff a [] = ground arith
contains_iff a (x ∷ xs) = ground (arith, contains_iff a xs, same_iff a x)

pub contains_head : (a : Text) (xs : List Text) → contains a (a ∷ xs) ≡ true
unfolding contains
contains_head a xs = ground (arith, same_refl a)

pub contains_tail :
    (a b : Text) (xs : List Text) → contains a xs ≡ true → contains a (b ∷ xs) ≡ true
unfolding contains
contains_tail a b xs h = ground arith
