-- ===== src/Prelude/Lists.antt =====
-- Lists measured by native numbers, membership and predicates over lists.
use Prim.Native.Nat.{ℕ, zero, suc, ◌+◌, ◌≤◌, ◌<◌}
use mathlib.Core.Path.{◌≡◌, refl, subst, sym}
use mathlib.Core.Logic.{◌⊎◌, inl, inr}
use mathlib.Core.Bool.{Bool, true, false}
use mathlib.Core.List.{List, [], ◌∷◌, ◌++◌}
use native.Mathlib.Omega.{arith}
use codealmanac.Prelude.Tests.{if◌then◌else◌, Bool-cases}

module _ {ℓ} {A : Type ℓ} where
  abbrev pub length : List A → ℕ
  length [] = 0
  length (x ∷ xs) = suc (length xs)

  pub length-snoc : (xs : List A) (x : A) → length (xs ++ x ∷ []) ≡ length xs + 1
  length-snoc [] x = omega arith
  length-snoc (y ∷ xs) x = omega (arith, length-snoc xs x)

  pub length-append : (xs ys : List A) → length (xs ++ ys) ≡ length xs + length ys
  length-append [] ys = omega arith
  length-append (x ∷ xs) ys = omega (arith, length-append xs ys)

  abbrev pub take : ℕ → List A → List A
  take zero xs = []
  take (suc n) [] = []
  take (suc n) (x ∷ xs) = x ∷ take n xs

  -- `list.filter(p)`
  abbrev pub keep : (A → Bool) → List A → List A
  keep p [] = []
  keep p (x ∷ xs) = let rest = keep p xs in if p x then x ∷ rest else rest

module _ {A : Type 0} where
  -- Membership with the place kept.
  abbrev pub In : A → List A → Type 0
  In a [] = ⊥
  In a (x ∷ xs) = (a ≡ x) ⊎ In a xs

  pub In-append_left : (a : A) (xs ys : List A) → In a xs → In a (xs ++ ys)
  In-append_left a [] ys h = absurd h
  In-append_left a (x ∷ xs) ys (inl e) = inl e
  In-append_left a (x ∷ xs) ys (inr h) = inr (In-append_left a xs ys h)

  pub In-append_right : (a : A) (xs ys : List A) → In a ys → In a (xs ++ ys)
  In-append_right a [] ys h = h
  In-append_right a (x ∷ xs) ys h = inr (In-append_right a xs ys h)

  pub In-append : (a : A) (xs ys : List A) → In a (xs ++ ys) → In a xs ⊎ In a ys
  In-append a [] ys h = inr h
  In-append a (x ∷ xs) ys (inl e) = inl (inl e)
  In-append a (x ∷ xs) ys (inr h) = elim (In-append a xs ys h) [
    | inl l ↦ inl (inr l)
    | inr r ↦ inr r
  ]

  -- No element stands twice in the list.
  abbrev pub NoRepeats : List A → Type 0
  NoRepeats [] = Unit
  NoRepeats (x ∷ xs) = (¬ In x xs) × NoRepeats xs

  pub NoRepeats-snoc : (xs : List A) (a : A) → NoRepeats xs → ¬ In a xs → NoRepeats (xs ++ a ∷ [])
  NoRepeats-snoc [] a h new = ((λ i. i), tt)
  NoRepeats-snoc (x ∷ xs) a (h, hs) new = (
    λ i. elim (In-append x xs (a ∷ []) i) [
      | inl j ↦ h j
      | inr (inl e) ↦ new (inl (sym e))
      | inr (inr none_left) ↦ none_left
    ],
    NoRepeats-snoc xs a hs (λ i. new (inr i)),
  )

module _ {κ} {A : Type 0} (P : A → Type κ) where
  abbrev pub All : List A → Type κ
  All [] = Unit
  All (x ∷ xs) = P x × All xs

  pub All-append : (xs ys : List A) → All xs → All ys → All (xs ++ ys)
  All-append [] ys h k = k
  All-append (x ∷ xs) ys (p, h) k = (p, All-append xs ys h k)

  pub All-In : (xs : List A) (a : A) → All xs → In a xs → P a
  All-In [] a h i = absurd i
  All-In (x ∷ xs) a (p, h) (inl e) = subst P (sym e) p
  All-In (x ∷ xs) a (p, h) (inr i) = All-In xs a h i

pub All-of-In {κ} :
    {A : Type 0} (P : A → Type κ) (xs : List A) → ((x : A) → In x xs → P x) → All P xs
All-of-In P [] h = tt
All-of-In P (x ∷ xs) h = (h x (inl refl), All-of-In P xs (λ y i. h y (inr i)))

pub All-weaken {κ μ} :
    {A : Type 0} {P : A → Type κ} {Q : A → Type μ} (xs : List A)
    → ((x : A) → P x → Q x)
    → All P xs
    → All Q xs
All-weaken [] f h = tt
All-weaken (x ∷ xs) f (p, h) = (f x p, All-weaken xs f h)

pub All-Unit : {A : Type 0} (xs : List A) → All (λ _. Unit {0}) xs
All-Unit [] = tt
All-Unit (x ∷ xs) = (tt, All-Unit xs)

module _ {A : Type 0} where
  -- None of the later elements is among the earlier ones.
  abbrev pub Apart : List A → List A → Type 0
  Apart before later = All (λ q. ¬ In q before) later

  pub Apart-snoc :
      (before later : List A) (p : A)
      → Apart before later
      → ¬ In p later
      → Apart (before ++ p ∷ []) later
  Apart-snoc before [] p h new = tt
  Apart-snoc before (q ∷ later) p (h, hs) new = (
    λ i. elim (In-append q before (p ∷ []) i) [
      | inl j ↦ h j
      | inr (inl e) ↦ new (inl (sym e))
      | inr (inr none_left) ↦ none_left
    ],
    Apart-snoc before later p hs (λ i. new (inr i)),
  )

  pub nothing_before : (later : List A) → Apart [] later
  nothing_before [] = tt
  nothing_before (q ∷ later) = ((λ i. i), nothing_before later)

  pub In-keep : (p : A → Bool) (x : A) (xs : List A) → In x (keep p xs) → In x xs × (p x ≡ true)
  In-keep p x [] i = absurd i
  In-keep p x (y ∷ xs) i = elim (Bool-cases (p y)) [
    | inr gone ↦ let (j, h) = In-keep p x xs (rw gone at i) in (inr j, h)
    | inl kept ↦
        let k : In x (y ∷ keep p xs) = rw kept at i in
        elim k [ inl e ↦ (inl e, rw e kept) | inr j ↦ let (l, h) = In-keep p x xs j in (inr l, h) ]
  ]

  pub keep-In : (p : A → Bool) (x : A) (xs : List A) → In x xs → p x ≡ true → In x (keep p xs)
  keep-In p x [] i h = i
  keep-In p x (y ∷ xs) i h = elim (Bool-cases (p y)) [
    | inl kept ↦ rw kept (elim i [ inl e ↦ inl e | inr j ↦ inr (keep-In p x xs j h) ])
    | inr gone ↦ rw gone (elim i [ inl e ↦ absurd (cc (gone, h, e)) | inr j ↦ keep-In p x xs j h ])
  ]

module _ {ℓ} {A : Type ℓ} where
  pub length-keep-le : (p : A → Bool) (xs : List A) → length (keep p xs) ≤ length xs
  length-keep-le p [] = omega arith
  length-keep-le p (x ∷ xs) = ground (arith, length-keep-le p xs)

module _ {A : Type 0} (p q : A → Bool) (implies : (x : A) → p x ≡ true → q x ≡ true) where
  length-keep_mono : (xs : List A) → length (keep p xs) ≤ length (keep q xs)
  length-keep_mono [] = omega arith
  length-keep_mono (x ∷ xs) = ground (arith, length-keep_mono xs, implies x)

  -- A stronger test that drops an element keeps fewer.
  pub length-keep-lt :
      (a : A) (xs : List A)
      → In a xs
      → p a ≡ false
      → q a ≡ true
      → length (keep p xs) < length (keep q xs)
  length-keep-lt a [] i h k = absurd i
  length-keep-lt a (x ∷ xs) (inl e) h k = rw (sym e, h, k) (omega (arith, length-keep_mono xs))
  length-keep-lt a (x ∷ xs) (inr i) h k = ground (arith, length-keep-lt a xs i h k, implies x)
