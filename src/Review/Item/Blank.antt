-- ===== src/Review/Item/Blank.antt =====
-- Blank summaries and ids (review/store.ts).
use codealmanac.Prelude.{
  ℕ, ◌≡◌, refl, false, inl, inr, List, [], ◌∷◌, In-append_right, Text, drop_end, trim, is_empty,
  take, Bool-cases, Option-cases,
}
use codealmanac.Slug.{hyphen, is_hyphen, to_kebab_case}
use codealmanac.Prelude.{IsSolid, trimmed-IsSolid, nonempty_first, In-of_take, In-of_drop_end}
use codealmanac.Slug.Laws.{to_kebab_case-solid}
use codealmanac.Review.Item.{
  collapse_spaces, strip_bullet, clean_summary, heading_of, summary_from_lines,
  summary_from_markdown, split_breaks, review_id_base, numbered,
}

clean_summary-IsSolid : (s : Text) → is_empty (clean_summary s) ≡ false → IsSolid (clean_summary s)
unfolding clean_summary
clean_summary-IsSolid s h =
    trimmed-IsSolid (take 160 (trim (strip_bullet (collapse_spaces false s)))) h

summary_from_lines-IsSolid :
    (first : Text) (lines : List Text)
    → is_empty (summary_from_lines first lines) ≡ false
    → IsSolid (summary_from_lines first lines)
unfolding summary_from_lines
summary_from_lines-IsSolid first [] h = clean_summary-IsSolid first h
summary_from_lines-IsSolid first (line ∷ lines) h = elim (Bool-cases (is_empty (trim line))) [
  | inl blank ↦ rw blank (summary_from_lines-IsSolid first lines (rw blank at h))
  | inr filled ↦ elim (Option-cases (heading_of (trim line))) [
    | inr (heading, e) ↦ rw (filled, e) (clean_summary-IsSolid heading (rw (filled, e) at h))
    | inl plain ↦ elim (Bool-cases (is_empty first)) [
      | inl b ↦
          rw (filled, plain, b)
            (summary_from_lines-IsSolid (trim line) lines (rw (filled, plain, b) at h))
      | inr b ↦
          rw (filled, plain, b)
            (summary_from_lines-IsSolid first lines (rw (filled, plain, b) at h))
    ]
  ]
]

pub summary_from_markdown-IsSolid :
    (markdown : Text)
    → is_empty (summary_from_markdown markdown) ≡ false
    → IsSolid (summary_from_markdown markdown)
unfolding summary_from_markdown
summary_from_markdown-IsSolid markdown h = summary_from_lines-IsSolid [] (split_breaks markdown) h

pub review_id_base-IsSolid : (summary : Text) → IsSolid (review_id_base summary)
unfolding review_id_base
review_id_base-IsSolid summary =
    let base = drop_end is_hyphen (take 80 (to_kebab_case summary)) in
    elim (Bool-cases (is_empty base)) [
      | inl blank ↦ rw blank (b'r', inl refl, refl)
      | inr filled ↦
          let (c, i) = nonempty_first base filled in
          rw filled (
            c,
            i,
            to_kebab_case-solid summary c (
                In-of_take 80 c (to_kebab_case summary)
                  (In-of_drop_end is_hyphen c (take 80 (to_kebab_case summary)) i)),
          )
    ]

pub numbered-IsSolid : (base : Text) (i : ℕ) → IsSolid (numbered base i)
numbered-IsSolid base i = (hyphen, In-append_right hyphen base _ (inl refl), refl)
