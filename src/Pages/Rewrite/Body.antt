-- ===== src/Pages/Rewrite/Body.antt =====
-- What a rewrite leaves of a page (wiki/topics/frontmatter-rewrite.ts).
use codealmanac.Prelude.{
  true, false, ◌&&◌, ◌≡◌, ◌≢◌, refl, sym, ◌∙◌, ◌⊎◌, inl, inr, some, List, [], ◌∷◌, ◌++◌, Text,
  same_iff, Bool-cases, Option-cases, arith,
}
use codealmanac.Pages.Split.{
  SplitFrontmatter, opener_of, closer_of, lines_of, eol_of, split_frontmatter,
}
use codealmanac.Pages.Split.Laws.{split_frontmatter_lem}
use codealmanac.Pages.Scalars.{dedupe_slugs}
use codealmanac.Pages.Read.{FlowValue, read_topics, read_value, find_topics_key}
use codealmanac.Pages.Rewrite.{
  arrays_equal, none_left, left_as_is, block_of, has_no_range, next_lines, apply_to_parsed,
  apply_topics_transform,
}

pub arrays_equal_iff :
    (xs ys : List Text)
    → (arrays_equal xs ys ≡ true → xs ≡ ys) × (xs ≡ ys → arrays_equal xs ys ≡ true)
unfolding arrays_equal
arrays_equal_iff [] [] = (λ h. refl, λ h. refl)
arrays_equal_iff [] (y ∷ ys) = (λ h. cc (h), λ h. cc (h))
arrays_equal_iff (x ∷ xs) [] = (λ h. cc (h), λ h. cc (h))
arrays_equal_iff (x ∷ xs) (y ∷ ys) = (
  λ h. ground (arith, same_iff x y, (arrays_equal_iff xs ys).0),
  λ h. ground (arith, same_iff x y, (arrays_equal_iff xs ys).1),
)

none_left_sound : (xs : List Text) → none_left xs ≡ true → xs ≡ []
none_left_sound [] h = refl
none_left_sound (x ∷ xs) h = cc h

module _ (load : Text → FlowValue) (dump : Text → Text) (raw : Text) (p : SplitFrontmatter)
    (transform : List Text → List Text) where
  abbrev pub before_of : List Text
  before_of = dedupe_slugs (read_topics load (lines_of p)).before

  abbrev pub after_of : List Text
  after_of = dedupe_slugs (transform before_of)

  abbrev pub lines_after : List Text
  lines_after = next_lines dump (lines_of p) (read_topics load (lines_of p)).range after_of

  abbrev pub written : Text
  written = opener_of p ++ (block_of (eol_of p) lines_after ++ (closer_of p ++ p.body))

  -- Without a list there is nothing to lose.
  no_range_before : has_no_range (read_topics load (lines_of p)).range ≡ true → before_of ≡ []
  unfolding read_topics read_value dedupe_slugs
  no_range_before h = elim (Option-cases (find_topics_key (lines_of p))) [
    | inl e ↦ rw (e, read_topics) refl
    | inr (i, e) ↦ ground (arith, e)
  ]

  something_to_write :
      ¬ (before_of ≡ after_of)
      → (has_no_range (read_topics load (lines_of p)).range && none_left after_of) ≡ false
  something_to_write differ =
      elim (Bool-cases (has_no_range (read_topics load (lines_of p)).range)) [
        | inr ranged ↦ rw ranged refl
        | inl bare ↦ elim (Bool-cases (none_left after_of)) [
          | inr left ↦ rw (bare, left) refl
          | inl empty ↦
              absurd (differ (no_range_before bare ∙ sym (none_left_sound after_of empty)))
        ]
      ]

  pub apply_to_parsed_cases :
      ((before_of ≡ after_of)
        × (apply_to_parsed load dump raw p transform ≡ left_as_is raw before_of after_of))
      ⊎ ((¬ (before_of ≡ after_of))
          × (apply_to_parsed load dump raw p transform
              ≡ record { before = before_of; after = after_of; output = written; changed = true }))
  unfolding apply_to_parsed
  apply_to_parsed_cases = elim (Bool-cases (arrays_equal before_of after_of)) [
    | inl equal ↦ inl ((arrays_equal_iff before_of after_of).0 equal, rw equal refl)
    | inr differ ↦
        let distinct : ¬ (before_of ≡ after_of) =
          λ e. cc (differ, (arrays_equal_iff before_of after_of).1 e) in
        inr (distinct, rw (differ, something_to_write distinct) refl)
  ]

-- A page with frontmatter is its opener, the block of lines, the closer and the body. If the
-- topics stay the same it is left as it is; otherwise only the block is another one.
pub apply_topics_transform-body :
    (load : Text → FlowValue) (dump : Text → Text) (raw : Text) (p : SplitFrontmatter)
    (transform : List Text → List Text)
    → split_frontmatter raw ≡ some p
    → let r = apply_topics_transform load dump raw transform in
      (raw ≡ opener_of p ++ (p.block ++ (closer_of p ++ p.body)))
      × (((r.before ≡ r.after) × (r.changed ≡ false) × (r.output ≡ raw))
          ⊎ ((r.before ≢ r.after)
              × (r.changed ≡ true)
              × (block : Text) × (r.output ≡ opener_of p ++ (block ++ (closer_of p ++ p.body)))))
unfolding apply_topics_transform
apply_topics_transform-body load dump raw p transform h = (
  split_frontmatter_lem raw p h,
  rw (h, apply_topics_transform)
      (elim (apply_to_parsed_cases load dump raw p transform) [
        | inl (same, e) ↦ inl (rw e (same, refl, refl))
        | inr (differ, e) ↦
            inr (
              rw e
                (differ, refl, block_of (eol_of p) (lines_after load dump raw p transform), refl))
      ]),
)
