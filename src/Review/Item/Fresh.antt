-- ===== src/Review/Item/Fresh.antt =====
-- `nextReviewId` (review/store.ts) and the ids that exist.
use codealmanac.Prelude.{
  ℕ, zero, suc, ◌≤◌, ◌<◌, ◌≡◌, ◌≢◌, refl, sym, ◌∙◌, true, false, not, some, List, [], ◌∷◌, ◌++◌,
  length, keep, Text, same, same_iff, contains, arith, Bool-cases, inl, inr,
}
use codealmanac.Slug.{hyphen}
use codealmanac.Review.Item.Number.{decimal, decimal_injective}
use codealmanac.Review.Item.{
  ReviewItem, numbered, first_free, ids_of, review_id_base, next_review_id,
}

append_cancel : (base a b : Text) → base ++ a ≡ base ++ b → a ≡ b
append_cancel [] a b h = h
append_cancel (c ∷ base) a b h = append_cancel base a b (cc h)

numbered_injective : (base : Text) (i j : ℕ) → numbered base i ≡ numbered base j → i ≡ j
numbered_injective base i j h =
    decimal_injective i j (cc (append_cancel base (hyphen ∷ decimal i) (hyphen ∷ decimal j) h))

-- The texts that are not `a`.
abbrev others : Text → List Text → List Text
others a xs = keep (λ x. not (same x a)) xs

length-others : (a : Text) (xs : List Text) → length (others a xs) ≤ length xs
length-others a [] = omega arith
length-others a (x ∷ xs) = ground (arith, length-others a xs)

length-others_of_contains :
    (a : Text) (xs : List Text) → contains a xs ≡ true → length (others a xs) < length xs
unfolding contains
length-others_of_contains a [] h = absurd (cc h)
length-others_of_contains a (x ∷ xs) h =
    ground (arith, length-others a xs, length-others_of_contains a xs, same_iff a x, same_iff x a)

contains-others : (a b : Text) → a ≢ b → (xs : List Text) → contains b (others a xs) ≡ contains b xs
unfolding contains
contains-others a b ne [] = refl
contains-others a b ne (x ∷ xs) =
    ground (arith, contains-others a b ne xs, same_iff b x, same_iff x a)

-- An id with a smaller number does not matter to the search.
first_free-others :
    (base : Text) (fuel i k : ℕ) (xs : List Text)
    → k < i
    → first_free base (others (numbered base k) xs) fuel i ≡ first_free base xs fuel i
unfolding first_free
first_free-others base zero i k xs h = refl
first_free-others base (suc fuel) i k xs h =
    let e =
      contains-others (numbered base k) (numbered base i)
        (λ j. let clash = numbered_injective base k i j in omega arith) xs in
    ground (arith, e, first_free-others base fuel (suc i) k xs)

-- With more fuel than there are ids, a free one is found.
pub first_free_found :
    (base : Text) (fuel i : ℕ) (xs : List Text)
    → length xs < fuel
    → (id : Text) × (first_free base xs fuel i ≡ some id)
unfolding first_free
first_free_found base zero i xs h = absurd (omega arith)
first_free_found base (suc fuel) i xs h = elim (Bool-cases (contains (numbered base i) xs)) [
  | inr free ↦ (numbered base i, rw free)
  | inl taken ↦
      let shorter = length-others_of_contains (numbered base i) xs taken in
      let (id, found) =
        first_free_found base fuel (suc i) (others (numbered base i) xs) (omega arith) in
      (id, rw taken (sym (first_free-others base fuel (suc i) i xs (omega arith)) ∙ found))
]

pub first_free_new :
    (base : Text) (fuel i : ℕ) (xs : List Text) (id : Text)
    → first_free base xs fuel i ≡ some id
    → contains id xs ≡ false
unfolding first_free
first_free_new base zero i xs id h = absurd (cc h)
first_free_new base (suc fuel) i xs id h = ground (arith, first_free_new base fuel (suc i) xs id)

-- Whatever the summary and the items, the search for an id ends within one round more than there
-- are items, and no item has the id.
pub next_review_id_new :
    (summary : Text) (items : List ReviewItem)
    → (id : Text) × (next_review_id summary items ≡ some id) × (contains id (ids_of items) ≡ false)
unfolding next_review_id
next_review_id_new summary items =
    let base = review_id_base summary in
    let existing = ids_of items in
    elim (Bool-cases (contains base existing)) [
      | inr free ↦ (base, rw free, free)
      | inl taken ↦
          let (id, found) =
            first_free_found base (suc (length existing)) 2 existing (omega arith) in
          (id, rw taken found, first_free_new base (suc (length existing)) 2 existing id found)
    ]
