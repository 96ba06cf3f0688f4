-- ===== src/Pages/Rewrite/Reread.antt =====
-- A rewritten page, split and read once more (wiki/topics/frontmatter-rewrite.ts).
use codealmanac.Prelude.{
  Bool, true, false, ◌||◌, ◌≡◌, refl, subst, sym, ap, ◌∙◌, inl, inr, some, List, ◌++◌, map, Text,
  take,
}
use codealmanac.Pages.Split.{
  ends_line, has_crlf, SplitFrontmatter, opener_of, closer_of, lines_of, eol_of, split_frontmatter,
}
use codealmanac.Pages.Split.Again.{eol, IsClear, AreClear}
use codealmanac.Pages.Scalars.{flow_list}
use codealmanac.Pages.Read.{FlowValue, sequence, read_topics}
use codealmanac.Pages.Rewrite.{
  topics_line, next_lines, none_left, block_of, TransformApplied, apply_to_parsed,
  apply_topics_transform,
}
use codealmanac.Pages.Rewrite.ReadBack.{ArePlain, read_topics-next_lines}
use codealmanac.Pages.Rewrite.Body.{after_of, apply_to_parsed_cases}
use codealmanac.Pages.Rewrite.Again.{
  StartsOpen, StartsOpen-take, All-take, topics_line-IsClear, topics_line-open, next_lines_parts,
  IsSplitAgain, parts_again,
}

-- Does a page with these parts end its lines with a carriage return?
abbrev pub ends_crlf : SplitFrontmatter → Bool
ends_crlf p = has_crlf p.newline || has_crlf p.block

-- The output is split like the page, and reads as the topics.
abbrev Rereads : (Text → FlowValue) → SplitFrontmatter → Text → List Text → Type 0
Rereads load p output topics =
    (q : SplitFrontmatter) × (split_frontmatter output ≡ some q)
    × (opener_of q ≡ opener_of p)
    × (closer_of q ≡ closer_of p)
    × (q.body ≡ p.body)
    × ((read_topics load (lines_of q)).before ≡ topics)

module _ (load : Text → FlowValue) (dump : Text → Text) (raw : Text) (p : SplitFrontmatter)
    (h : split_frontmatter raw ≡ some p) (clear : AreClear (ends_crlf p) (lines_of p))
    (opens : StartsOpen (lines_of p)) (closed : ends_line (p.tail ++ p.body) ≡ true) where
  next_lines-Rereads :
      (topics : List Text)
      → none_left topics ≡ false
      → ArePlain topics
      → load (flow_list dump topics) ≡ sequence (map some topics)
      → Rereads load p
          (opener_of p
            ++ (block_of
                  (eol_of p)
                  (next_lines dump (lines_of p) (read_topics load (lines_of p)).range topics)
                ++ (closer_of p ++ p.body)))
          topics
  unfolding eol_of
  next_lines-Rereads topics left plain loads =
      let crlf = ends_crlf p in
      let line = topics_line dump topics in
      let (n, rest, e, clears) = next_lines_parts load dump crlf (lines_of p) topics clear left in
      let parts =
        parts_again raw p crlf (take n (lines_of p)) line rest h
          (All-take (IsClear crlf) n (lines_of p) clear) (StartsOpen-take n (lines_of p) opens)
          (topics_line-IsClear dump crlf topics plain) (topics_line-open dump topics) clears
          closed in
      let (q, split, opener, lines, closer, body) =
        subst
          (λ lines.
            IsSplitAgain p (opener_of p ++ (block_of (eol crlf) lines ++ (closer_of p ++ p.body)))
              lines)
          (sym e) parts in
      (
        q,
        split,
        opener,
        closer,
        body,
        subst (λ lines. (read_topics load lines).before ≡ topics) (sym lines)
            (read_topics-next_lines load dump (lines_of p) topics left plain loads),
      )

abbrev AppliedRereads :
    (Text → FlowValue) → (Text → Text) → SplitFrontmatter → TransformApplied → Type 0
AppliedRereads load dump p r =
    none_left r.after ≡ false
    → ArePlain r.after
    → load (flow_list dump r.after) ≡ sequence (map some r.after)
    → Rereads load p r.output r.after

-- Let the lines of a page's frontmatter be no fences and free of line feeds and, unless the page
-- has a CRLF line ending in front of its closing fence, not end with a carriage return. Let the
-- first of them not begin with a fence, and the closing fence end its line. If the topics change
-- to plain ones, and YAML reads the list as the strings that it shows, then the page that is
-- written is split again, with the same opener, closer and body, and its frontmatter holds
-- exactly the new topics.
pub apply_topics_transform-split_frontmatter :
    (load : Text → FlowValue) (dump : Text → Text) (raw : Text) (p : SplitFrontmatter)
    (transform : List Text → List Text)
    → split_frontmatter raw ≡ some p
    → AreClear (ends_crlf p) (lines_of p)
    → StartsOpen (lines_of p)
    → ends_line (p.tail ++ p.body) ≡ true
    → (apply_topics_transform load dump raw transform).changed ≡ true
    → none_left (apply_topics_transform load dump raw transform).after ≡ false
    → ArePlain (apply_topics_transform load dump raw transform).after
    → load (flow_list dump (apply_topics_transform load dump raw transform).after)
      ≡ sequence (map some (apply_topics_transform load dump raw transform).after)
    → let r = apply_topics_transform load dump raw transform in
      (q : SplitFrontmatter) × (split_frontmatter r.output ≡ some q)
      × (opener_of q ≡ opener_of p)
      × (closer_of q ≡ closer_of p)
      × (q.body ≡ p.body)
      × ((read_topics load (lines_of q)).before ≡ r.after)
unfolding apply_topics_transform
apply_topics_transform-split_frontmatter load dump raw p transform h clear opens closed changed
      some_left plain loads =
    let parsed : apply_topics_transform load dump raw transform
        ≡ apply_to_parsed load dump raw p transform =
      rw (h, apply_topics_transform) refl in
    elim (apply_to_parsed_cases load dump raw p transform) [
      | inl (same, e) ↦ cc (ap (λ (r : TransformApplied). r.changed) (parsed ∙ e), changed)
      | inr (differ, e) ↦
          subst (AppliedRereads load dump p) (sym (parsed ∙ e))
            (λ left plain loads.
              next_lines-Rereads load dump raw p h clear opens closed
                (after_of load dump raw p transform) left plain loads)
            some_left plain loads
    ]
