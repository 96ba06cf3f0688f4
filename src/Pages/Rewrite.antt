-- ===== src/Pages/Rewrite.antt =====
-- The rewriting of a page's topics (`applyTopicsTransform` in wiki/topics/frontmatter-rewrite.ts,
-- `rewriteTopicOnPages` in cli/commands/topics/page-rewrite.ts).
pub mod Body
pub mod Again
pub mod Reread
pub mod ReadBack
use codealmanac.Prelude.{
  ℕ, ◌+◌, Bool, true, false, not, ◌&&◌, Option, none, some, List, [], ◌∷◌, ◌++◌, Text, codes, same,
  if◌then◌else◌, is_empty, take,
}
use codealmanac.Pages.Split.{
  fence, SplitFrontmatter, opener_of, closer_of, lines_of, eol_of, split_frontmatter,
}
use codealmanac.Pages.Scalars.{flow_list, join_text, dedupe_slugs}
use codealmanac.Pages.Read.{FlowValue, ExistingRange, TopicsInLines, drop, read_topics}

pub record TransformApplied : Type 0 where
  pub before : List Text
  pub after : List Text
  pub output : Text
  pub changed : Bool

unfoldable pub arrays_equal : List Text → List Text → Bool
unfolding same
arrays_equal [] [] = true
arrays_equal (x ∷ xs) (y ∷ ys) = same x y && arrays_equal xs ys
arrays_equal _ _ = false

abbrev pub none_left : List Text → Bool
none_left [] = true
none_left (x ∷ xs) = false

abbrev pub left_as_is : Text → List Text → List Text → TransformApplied
left_as_is raw before after = record {
  before = before;
  after = after;
  output = raw;
  changed = false;
}

-- The block: the lines, each with its ending.
abbrev pub block_of : Text → List Text → Text
block_of eol lines = if none_left lines then [] else join_text eol lines ++ eol

abbrev pub has_no_range : Option ExistingRange → Bool
has_no_range none = true
has_no_range (some range) = false

module _ (dump : Text → Text) where
  unfoldable pub topics_line : List Text → Text
  unfolding flow_list
  topics_line topics = codes "topics: " ++ flow_list dump topics

  -- The lines with the new list in the place of the old one, or at the end.
  unfoldable pub next_lines : List Text → Option ExistingRange → List Text → List Text
  unfolding topics_line
  next_lines lines none after = lines ++ topics_line after ∷ []
  next_lines lines (some range) after =
      if none_left after
      then take range.start lines ++ drop range.end lines
      else take range.start lines ++ (topics_line after ∷ (range.preserved ++ drop range.end lines))

module _ (load : Text → FlowValue) (dump : Text → Text) where
  unfoldable pub apply_to_parsed :
      Text → SplitFrontmatter → (List Text → List Text) → TransformApplied
  unfolding dedupe_slugs read_topics next_lines arrays_equal lines_of eol_of join_text
  apply_to_parsed raw p transform =
      let found = read_topics load (lines_of p) in
      let before = dedupe_slugs found.before in
      let after = dedupe_slugs (transform before) in
      if arrays_equal before after
      then left_as_is raw before after
      else if has_no_range found.range && none_left after
      then left_as_is raw before after
      else record {
        before = before;
        after = after;
        output =
            opener_of p
            ++ (block_of (eol_of p) (next_lines dump (lines_of p) found.range after)
                ++ (closer_of p ++ p.body));
        changed = true;
      }

  -- A page without frontmatter gets one.
  unfoldable pub apply_to_bare : Text → List Text → TransformApplied
  unfolding topics_line
  apply_to_bare raw next = if none_left next then left_as_is raw [] [] else record {
    before = [];
    after = next;
    output = codes "---\n" ++ (topics_line dump next ++ (codes "\n---\n\n" ++ raw));
    changed = true;
  }

  unfoldable pub apply_topics_transform : Text → (List Text → List Text) → TransformApplied
  unfolding split_frontmatter apply_to_parsed apply_to_bare dedupe_slugs
  apply_topics_transform raw transform = elim (split_frontmatter raw) [
    | none ↦ apply_to_bare raw (dedupe_slugs (transform []))
    | some p ↦ apply_to_parsed raw p transform
  ]

  -- The files of the page roots as they are found, and how many have changed.
  unfoldable pub rewrite_topic_on_pages : (List Text → List Text) → List Text → List Text × ℕ
  unfolding apply_topics_transform
  rewrite_topic_on_pages transform [] = ([], 0)
  rewrite_topic_on_pages transform (raw ∷ files) =
      let applied = apply_topics_transform raw transform in
      let (rest, changed) = rewrite_topic_on_pages transform files in
      (applied.output ∷ rest, if applied.changed then changed + 1 else changed)
