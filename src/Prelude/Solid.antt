-- ===== src/Prelude/Solid.antt =====
-- Texts that are not blank, and what trimming keeps of them.
use Prim.Native.Nat.{ℕ, zero, suc}
use mathlib.Core.Path.{◌≡◌, refl, sym, subst}
use mathlib.Core.Logic.{◌⊎◌, inl, inr}
use mathlib.Core.Bool.{Bool, true, false}
use mathlib.Core.List.{[], ◌∷◌}
use codealmanac.Prelude.Tests.{Bool-cases}
use codealmanac.Prelude.Lists.{In, take}
use codealmanac.Prelude.Strings.{Text}
use codealmanac.Prelude.Chars.{is_space, drop_start, drop_end, put_unless, trim, is_empty}

-- Some unit of the text is no white space.
abbrev pub IsSolid : Text → Type 0
IsSolid s = (c : ℕ) × In c s × (is_space c ≡ false)

pub In-drop_start : (p : ℕ → Bool) (c : ℕ) (s : Text) → In c s → p c ≡ false → In c (drop_start p s)
In-drop_start p c [] i h = i
In-drop_start p c (d ∷ s) i h = elim (Bool-cases (p d)) [
  | inr stop ↦ rw stop i
  | inl dropped ↦
      rw dropped (elim i [ inl e ↦ absurd (cc (dropped, h, e)) | inr j ↦ In-drop_start p c s j h ])
]

pub In-of_drop_start : (p : ℕ → Bool) (c : ℕ) (s : Text) → In c (drop_start p s) → In c s
In-of_drop_start p c [] i = i
In-of_drop_start p c (d ∷ s) i = elim (Bool-cases (p d)) [
  | inr stop ↦ rw stop at i
  | inl dropped ↦ inr (In-of_drop_start p c s (rw dropped at i))
]

In-put_unless : (b : Bool) (c d : ℕ) (t : Text) → In c t → In c (put_unless b d t)
In-put_unless b c d [] i = absurd i
In-put_unless true c d (x ∷ t) i = inr i
In-put_unless false c d (x ∷ t) i = inr i

put_unless_own : (c : ℕ) (t : Text) → In c (put_unless false c t)
put_unless_own c [] = inl refl
put_unless_own c (x ∷ t) = inl refl

In-of_put_unless : (b : Bool) (c d : ℕ) (t : Text) → In c (put_unless b d t) → (c ≡ d) ⊎ In c t
In-of_put_unless true c d [] i = absurd i
In-of_put_unless false c d [] i = i
In-of_put_unless true c d (x ∷ t) i = i
In-of_put_unless false c d (x ∷ t) i = i

pub In-drop_end : (p : ℕ → Bool) (c : ℕ) (s : Text) → In c s → p c ≡ false → In c (drop_end p s)
In-drop_end p c [] i h = i
In-drop_end p c (d ∷ s) (inr i) h = In-put_unless (p d) c d (drop_end p s) (In-drop_end p c s i h)
In-drop_end p c (d ∷ s) (inl e) h = rw (sym e, h) (put_unless_own c (drop_end p s))

pub In-of_drop_end : (p : ℕ → Bool) (c : ℕ) (s : Text) → In c (drop_end p s) → In c s
In-of_drop_end p c [] i = i
In-of_drop_end p c (d ∷ s) i = elim (In-of_put_unless (p d) c d (drop_end p s) i) [
  | inl e ↦ inl e
  | inr j ↦ inr (In-of_drop_end p c s j)
]

pub In-of_take : (n c : ℕ) (s : Text) → In c (take n s) → In c s
In-of_take zero c s i = absurd i
In-of_take (suc n) c [] i = i
In-of_take (suc n) c (d ∷ s) (inl e) = inl e
In-of_take (suc n) c (d ∷ s) (inr i) = inr (In-of_take n c s i)

-- The first unit that is left is no dropped one.
drop_start_head :
    (p : ℕ → Bool) (s : Text)
    → (drop_start p s ≡ []) ⊎ ((c : ℕ) × (t : Text) × (drop_start p s ≡ c ∷ t) × (p c ≡ false))
drop_start_head p [] = inl refl
drop_start_head p (d ∷ s) = elim (Bool-cases (p d)) [
  | inr stop ↦ rw stop (inr (d, s, refl, stop))
  | inl dropped ↦ rw dropped (drop_start_head p s)
]

pub IsSolid-of_trim : (s : Text) → is_empty (trim s) ≡ false → IsSolid s
unfolding trim
IsSolid-of_trim s h = elim (drop_start_head is_space s) [
  | inl nothing ↦ absurd (cc (rw nothing at h))
  | inr (c, t, e, solid) ↦
      (c, In-of_drop_start is_space c s (subst (λ u. In c u) (sym e) (inl refl)), solid)
]

IsSolid-drop_end : (s : Text) → IsSolid s → IsSolid (drop_end is_space s)
IsSolid-drop_end s (c, i, solid) = (c, In-drop_end is_space c s i solid, solid)

pub IsSolid-trim : (s : Text) → IsSolid s → IsSolid (trim s)
unfolding trim
IsSolid-trim s (c, i, solid) =
    (c, In-drop_end is_space c _ (In-drop_start is_space c s i solid) solid, solid)

pub not_empty_of_In : (c : ℕ) (s : Text) → In c s → is_empty s ≡ false
not_empty_of_In c [] i = absurd i
not_empty_of_In c (d ∷ s) i = refl

pub trim_of_IsSolid : (s : Text) → IsSolid s → is_empty (trim s) ≡ false
trim_of_IsSolid s h = let (c, i, solid) = IsSolid-trim s h in not_empty_of_In c (trim s) i

-- A trimmed text that is not empty is not blank.
pub trimmed-IsSolid : (s : Text) → is_empty (trim s) ≡ false → IsSolid (trim s)
trimmed-IsSolid s h = IsSolid-trim s (IsSolid-of_trim s h)

pub trimmed_end-IsSolid : (s : Text) → is_empty (trim s) ≡ false → IsSolid (drop_end is_space s)
trimmed_end-IsSolid s h = IsSolid-drop_end s (IsSolid-of_trim s h)

pub nonempty_first : (s : Text) → is_empty s ≡ false → (c : ℕ) × In c s
nonempty_first [] h = absurd (cc h)
nonempty_first (c ∷ s) h = (c, inl refl)
