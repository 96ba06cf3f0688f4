-- ===== src/Slug/Laws.antt =====
-- Laws of `toKebabCase` (slug.ts), against a description of slugs.
use codealmanac.Prelude.{
  In, is_space, ℕ, Bool, true, false, not, [], ◌∷◌, ◌≡◌, refl, ap, ◌⊎◌, inl, inr, ◌↔◌, arith, Text,
  lower_letters, drop_start, drop_end, put_unless, if◌then◌else◌, Bool-cases,
}
use codealmanac.Slug.{is_alnum, hyphen, is_hyphen, collapse, to_kebab_case}

-- Alphanumeric words joined by single hyphens. The flag says whether the text may end here or go
-- on with a hyphen: the last unit was alphanumeric.
abbrev pub Words : Bool → Text → Type 0
Words ended [] = ended ≡ true
Words ended (c ∷ s) =
    ((is_alnum c ≡ true) × Words true s) ⊎ ((ended ≡ true) × (c ≡ hyphen) × Words false s)

-- A slug: nothing, or words joined by single hyphens.
abbrev pub IsSlug : Text → Type 0
IsSlug s = (s ≡ []) ⊎ Words false s

-- After the replacement no two hyphens stand together; the flag says that one has just passed.
abbrev Spaced : Bool → Text → Type 0
Spaced after [] = Unit
Spaced after (c ∷ s) =
    ((is_alnum c ≡ true) × Spaced false s) ⊎ ((after ≡ false) × (c ≡ hyphen) × Spaced true s)

alnum-not_hyphen : (c : ℕ) → is_alnum c ≡ true → is_hyphen c ≡ false
alnum-not_hyphen c h = ground arith

collapse-Spaced : (run : Bool) (s : Text) → Spaced run (collapse run s)
unfolding collapse
collapse-Spaced run [] = tt
collapse-Spaced run (c ∷ s) = elim (Bool-cases (is_alnum c)) [
  | inl word ↦ rw word (inl (word, collapse-Spaced false s))
  | inr other ↦ rw other (gap run (collapse true s) (collapse-Spaced true s))
]
  where
    gap : (r : Bool) (t : Text) → Spaced true t → Spaced r (if r then t else hyphen ∷ t)
    gap true t h = h
    gap false t h = inr (refl, refl, h)

drop_start_of_Spaced : (s : Text) → Spaced true s → drop_start is_hyphen s ≡ s
drop_start_of_Spaced [] h = refl
drop_start_of_Spaced (c ∷ s) (inl (word, h)) = rw (alnum-not_hyphen c word)
drop_start_of_Spaced (c ∷ s) (inr (e, _, _)) = cc

drop_start-Spaced : (s : Text) → Spaced false s → Spaced true (drop_start is_hyphen s)
drop_start-Spaced [] h = tt
drop_start-Spaced (c ∷ s) (inl (word, h)) = rw (alnum-not_hyphen c word) (inl (word, h))
drop_start-Spaced (c ∷ s) (inr (_, e, h)) = rw (e, drop_start_of_Spaced s h) h

put-Words_word :
    (ended : Bool) (c : ℕ) (t : Text)
    → is_alnum c ≡ true
    → (t ≡ []) ⊎ Words true t
    → Words ended (put_unless (is_hyphen c) c t)
put-Words_word ended c [] word h = rw (alnum-not_hyphen c word) (inl (word, refl))
put-Words_word ended c (d ∷ t) word (inl e) = cc
put-Words_word ended c (d ∷ t) word (inr h) = inl (word, h)

put-Words-hyphen :
    (t : Text)
    → (t ≡ []) ⊎ Words false t
    → (put_unless true hyphen t ≡ []) ⊎ Words true (put_unless true hyphen t)
put-Words-hyphen [] h = inl refl
put-Words-hyphen (d ∷ t) (inl e) = cc
put-Words-hyphen (d ∷ t) (inr h) = inr (inr (refl, refl, h))

drop_end-Words :
    (after : Bool) (s : Text)
    → Spaced after s
    → (drop_end is_hyphen s ≡ []) ⊎ Words (not after) (drop_end is_hyphen s)
drop_end-Words after [] h = inl refl
drop_end-Words after (c ∷ s) (inl (word, h)) =
    inr (put-Words_word (not after) c (drop_end is_hyphen s) word (drop_end-Words false s h))
drop_end-Words true (c ∷ s) (inr (e, _, _)) = cc
drop_end-Words false (c ∷ s) (inr (_, e, h)) =
    rw e (put-Words-hyphen (drop_end is_hyphen s) (drop_end-Words true s h))

-- Whatever the input, `to_kebab_case` returns nothing or alphanumeric words joined by single
-- hyphens.
pub to_kebab_case-IsSlug : (input : Text) → IsSlug (to_kebab_case input)
unfolding to_kebab_case
to_kebab_case-IsSlug input =
    drop_end-Words true _ (drop_start-Spaced _ (collapse-Spaced false (lower_letters input)))

-- The converse: each stage leaves a slug alone.
lower_letters_of_Words : (ended : Bool) (s : Text) → Words ended s → lower_letters s ≡ s
unfolding lower_letters
lower_letters_of_Words ended [] h = refl
lower_letters_of_Words ended (c ∷ s) (inl (word, h)) =
    ground (arith, lower_letters_of_Words true s h)
lower_letters_of_Words ended (c ∷ s) (inr (_, e, h)) =
    ground (arith, lower_letters_of_Words false s h)

collapse_of_Words : (ended : Bool) (s : Text) → Words ended s → collapse (not ended) s ≡ s
unfolding collapse
collapse_of_Words ended [] h = refl
collapse_of_Words ended (c ∷ s) (inl (word, h)) =
    rw word (ap (λ t. c ∷ t) (collapse_of_Words true s h))
collapse_of_Words false (c ∷ s) (inr (e, _, _)) = cc
collapse_of_Words true (c ∷ s) (inr (_, e, h)) =
    rw e (ap (λ t. hyphen ∷ t) (collapse_of_Words false s h))

drop_end_of_Words : (ended : Bool) (s : Text) → Words ended s → drop_end is_hyphen s ≡ s
drop_end_of_Words ended [] h = refl
drop_end_of_Words ended (c ∷ s) (inl (word, h)) =
    rw (drop_end_of_Words true s h, alnum-not_hyphen c word) (kept s)
  where
    kept : (t : Text) → put_unless false c t ≡ c ∷ t
    kept [] = refl
    kept (d ∷ t) = refl
drop_end_of_Words ended (c ∷ []) (inr (_, _, h)) = cc
drop_end_of_Words ended (c ∷ d ∷ s) (inr (_, e, h)) = rw (drop_end_of_Words false (d ∷ s) h)

drop_start_of_Words : (s : Text) → Words false s → drop_start is_hyphen s ≡ s
drop_start_of_Words [] h = refl
drop_start_of_Words (c ∷ s) (inl (word, h)) = rw (alnum-not_hyphen c word)
drop_start_of_Words (c ∷ s) (inr (e, _, _)) = cc

Words-weaken : (s : Text) → Words false s → Words true s
Words-weaken [] h = refl
Words-weaken (c ∷ s) (inl h) = inl h
Words-weaken (c ∷ s) (inr (e, _, _)) = cc

-- `to_kebab_case` leaves every slug as it is.
pub to_kebab_case_of_IsSlug : (s : Text) → IsSlug s → to_kebab_case s ≡ s
unfolding to_kebab_case
to_kebab_case_of_IsSlug s (inl e) = rw e
to_kebab_case_of_IsSlug s (inr h) = rw (
  lower_letters_of_Words false s h,
  collapse_of_Words true s (Words-weaken s h),
  drop_start_of_Words s h,
  drop_end_of_Words false s h,
)

-- A text is left as it is by `to_kebab_case` exactly when it is a slug: empty, or alphanumeric
-- words joined by single hyphens.
pub to_kebab_case-eq-self_iff : (s : Text) → (to_kebab_case s ≡ s) ↔ IsSlug s
to_kebab_case-eq-self_iff s = (λ e. rw e at (to_kebab_case-IsSlug s), to_kebab_case_of_IsSlug s)

-- No unit of a slug is white space.
pub Words-solid : (ended : Bool) (s : Text) (c : ℕ) → Words ended s → In c s → is_space c ≡ false
Words-solid ended [] c w i = absurd i
Words-solid ended (d ∷ s) c (inl (alnum, w)) (inl e) = ground (arith, e)
Words-solid ended (d ∷ s) c (inr (b, e2, w)) (inl e) = ground (arith, e)
Words-solid ended (d ∷ s) c (inl (alnum, w)) (inr i) = Words-solid true s c w i
Words-solid ended (d ∷ s) c (inr (b, e2, w)) (inr i) = Words-solid false s c w i

pub to_kebab_case-solid : (s : Text) (c : ℕ) → In c (to_kebab_case s) → is_space c ≡ false
to_kebab_case-solid s c i = elim (to_kebab_case-IsSlug s) [
  | inl nothing ↦ absurd (rw nothing at i)
  | inr words ↦ Words-solid false (to_kebab_case s) c words i
]
