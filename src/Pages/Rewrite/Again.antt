-- ===== src/Pages/Rewrite/Again.antt =====
-- Splitting and reading a rewritten page (wiki/topics/frontmatter-rewrite.ts).
use mathlib.Core.List.{append_assoc, append-nil}
use codealmanac.Prelude.{
  ℕ, zero, suc, ◌+◌, Bool, true, false, ◌==◌, ◌≡◌, refl, subst, sym, ap, ◌∙◌, ◌⊎◌, inl, inr, length,
  is_empty, none, some, List, [], ◌∷◌, ◌++◌, map, Text, codes, same, Bool-cases, Option-cases,
  arith, take, All, All-append,
}
use codealmanac.Pages.Split.{
  fence, strip_prefix, ends_line, SplitFrontmatter, opener_of, closer_of, lines_of,
  split_frontmatter,
}
use codealmanac.Pages.Split.Again.{
  eol, has_lf, IsClear, AreClear, lines_text, split_frontmatter-again,
}
use codealmanac.Pages.Split.Relines.{frontmatter_lines-lines_text}
use codealmanac.Pages.Scalars.{ends_with, join_text, format_scalar, flow_list, all_plain, is_plain}
use codealmanac.Pages.Read.{
  FlowValue, ExistingRange, LineKind, filler, entry, ending, add_filler, push_entry, kind_of,
  BlockScan, no_scan, scan_block, find_topics_key, value_of, line_at, drop, read_value, read_topics,
}
use codealmanac.Pages.Rewrite.{topics_line, next_lines, none_left, block_of}
use codealmanac.Pages.Rewrite.ReadBack.{ArePlain, format_plain}

join_text-lines :
    (crlf : Bool) (line : Text) (lines : List Text)
    → join_text (eol crlf) (line ∷ lines) ++ eol crlf ≡ lines_text crlf (line ∷ lines)
unfolding join_text
join_text-lines crlf line [] = ap (λ s. line ++ s) (sym (append-nil (eol crlf)))
join_text-lines crlf line (next ∷ lines) =
    append_assoc line (eol crlf ++ join_text (eol crlf) (next ∷ lines)) (eol crlf)
    ∙ ap (λ s. line ++ s)
        (append_assoc (eol crlf) (join_text (eol crlf) (next ∷ lines)) (eol crlf)
          ∙ ap (λ s. eol crlf ++ s) (join_text-lines crlf next lines))

block_of-lines :
    (crlf : Bool) (lines : List Text) → block_of (eol crlf) lines ≡ lines_text crlf lines
block_of-lines crlf [] = refl
block_of-lines crlf (line ∷ lines) = join_text-lines crlf line lines

-- The line of the topics is clear.
has_lf-append : (s t : Text) → has_lf s ≡ false → has_lf t ≡ false → has_lf (s ++ t) ≡ false
has_lf-append [] t h k = k
has_lf-append (c ∷ s) t h k = ground (arith, has_lf-append s t (ground arith) k)

has_lf_of_all_plain : (s : Text) → all_plain s ≡ true → has_lf s ≡ false
has_lf_of_all_plain [] h = refl
has_lf_of_all_plain (c ∷ s) h = ground (arith, has_lf_of_all_plain s (ground arith))

has_lf_of_is_plain : (s : Text) → is_plain s ≡ true → has_lf s ≡ false
has_lf_of_is_plain [] h = refl
has_lf_of_is_plain (c ∷ s) h = ground (arith, has_lf_of_all_plain s (ground arith))

has_lf-join_text :
    (topics : List Text) → ArePlain topics → has_lf (join_text (codes ", ") topics) ≡ false
unfolding join_text
has_lf-join_text [] h = refl
has_lf-join_text (s ∷ []) (p, h) = has_lf_of_is_plain s p
has_lf-join_text (s ∷ t ∷ topics) (p, h) =
    has_lf-append s (codes ", " ++ join_text (codes ", ") (t ∷ topics)) (has_lf_of_is_plain s p)
      (has_lf-join_text (t ∷ topics) h)

ends_with-behind :
    (q c d : ℕ) (s : Text) → ends_with q (c ∷ (s ++ d ∷ [])) ≡ ends_with q (s ++ d ∷ [])
ends_with-behind q c d [] = refl
ends_with-behind q c d (x ∷ s) = refl

ends_with-snoc : (q d : ℕ) (s : Text) → (d == q) ≡ false → ends_with q (s ++ d ∷ []) ≡ false
ends_with-snoc q d [] h = h
ends_with-snoc q d (c ∷ s) h = ends_with-behind q c d s ∙ ends_with-snoc q d s h

module _ (dump : Text → Text) where
  pub topics_line-IsClear :
      (crlf : Bool) (topics : List Text) → ArePlain topics → IsClear crlf (topics_line dump topics)
  unfolding topics_line flow_list same
  topics_line-IsClear crlf topics h =
      let items = join_text (codes ", ") (map (format_scalar dump) topics) in
      let quiet : has_lf items ≡ false =
        rw (format_plain dump topics h) (has_lf-join_text topics h) in
      let last = ends_with-snoc 13 b']' (codes "topics: [" ++ items) refl in
      (
        has_lf-append items (codes "]") quiet refl,
        refl,
        elim (Bool-cases crlf) [ inl e ↦ rw e refl | inr e ↦ rw (e, last) refl ],
      )

  pub topics_line-open : (topics : List Text) → strip_prefix fence (topics_line dump topics) ≡ none
  unfolding topics_line strip_prefix
  topics_line-open topics = refl

LineKind-cases :
    (kind : LineKind) → (kind ≡ filler) ⊎ ((value : Text) × (kind ≡ entry value)) ⊎ (kind ≡ ending)
LineKind-cases filler = inl refl
LineKind-cases (entry value) = inr (inl (value, refl))
LineKind-cases ending = inr (inr refl)

take-length : (lines : List Text) → take (length lines) lines ≡ lines
take-length [] = refl
take-length (line ∷ lines) = ap (λ s. line ∷ s) (take-length lines)

-- Parts of clear lines are clear.
module _ (P : Text → Type 0) where
  pub All-take : (n : ℕ) (lines : List Text) → All P lines → All P (take n lines)
  All-take zero lines h = tt
  All-take (suc n) [] h = tt
  All-take (suc n) (line ∷ lines) (p, h) = (p, All-take n lines h)

  All-drop : (n : ℕ) (lines : List Text) → All P lines → All P (drop n lines)
  All-drop zero lines h = h
  All-drop (suc n) [] h = tt
  All-drop (suc n) (line ∷ lines) (p, h) = All-drop n lines h

  All-scan_block :
      (lines : List Text) (scan : BlockScan)
      → All P lines
      → All P scan.preserved
      → All P scan.pending
      → All P (scan_block lines scan).preserved
  unfolding scan_block
  All-scan_block [] scan h k l = k
  All-scan_block (line ∷ lines) scan (p, h) k l = elim (LineKind-cases (kind_of line)) [
    | inl e ↦
        rw (e, scan_block)
          (All-scan_block lines (add_filler line scan) h k
            (All-append P scan.pending (line ∷ []) l (p, tt)))
    | inr (inl (value, e)) ↦
        rw (e, scan_block)
          (All-scan_block lines (push_entry value scan) h
            (All-append P scan.preserved scan.pending k l) tt)
    | inr (inr e) ↦ rw (e, scan_block) k
  ]

  All-preserved :
      (load : Text → FlowValue) (lines : List Text) (range : ExistingRange)
      → All P lines
      → (read_topics load lines).range ≡ some range
      → All P range.preserved
  unfolding read_topics read_value
  All-preserved load lines range h e = elim (Option-cases (find_topics_key lines)) [
    | inl f ↦ absurd (cc (rw (f, read_topics) at e))
    | inr (i, f) ↦ elim (Bool-cases (is_empty (value_of (line_at i lines)))) [
      | inl bare ↦
          let g : (scan_block (drop (i + 1) lines) no_scan).preserved ≡ range.preserved =
            ground (arith, f, bare) in
          subst (All P) g
            (All-scan_block (drop (i + 1) lines) no_scan (All-drop (i + 1) lines h) tt tt)
      | inr full ↦ let g : [] ≡ range.preserved = ground (arith, f, full) in subst (All P) g tt
    ]
  ]

-- The lines in three parts, the new line in the middle.
pub next_lines_parts :
    (load : Text → FlowValue) (dump : Text → Text) (crlf : Bool) (lines topics : List Text)
    → AreClear crlf lines
    → none_left topics ≡ false
    → (n : ℕ) × (rest : List Text) × (next_lines dump lines (read_topics load lines).range topics
        ≡ take n lines ++ topics_line dump topics ∷ rest)
      × AreClear crlf rest
unfolding next_lines
next_lines_parts load dump crlf lines topics h left =
    elim (Option-cases (read_topics load lines).range) [
      | inl e ↦ (length lines, [], rw (e, next_lines, take-length lines) refl, tt)
      | inr (range, e) ↦ (
        range.start,
        range.preserved ++ drop range.end lines,
        rw (e, next_lines, left) refl,
        All-append (IsClear crlf) range.preserved (drop range.end lines)
            (All-preserved (IsClear crlf) load lines range h e)
            (All-drop (IsClear crlf) range.end lines h),
      )
    ]

-- The first line does not begin like a fence.
abbrev pub StartsOpen : List Text → Type 0
StartsOpen [] = Unit
StartsOpen (line ∷ lines) = strip_prefix fence line ≡ none

pub StartsOpen-take : (n : ℕ) (lines : List Text) → StartsOpen lines → StartsOpen (take n lines)
StartsOpen-take zero lines h = tt
StartsOpen-take (suc n) [] h = tt
StartsOpen-take (suc n) (line ∷ lines) h = h

-- The page with these lines is split, and the lines are found again.
abbrev pub IsSplitAgain : SplitFrontmatter → Text → List Text → Type 0
IsSplitAgain p output lines =
    (q : SplitFrontmatter) × (split_frontmatter output ≡ some q)
    × (opener_of q ≡ opener_of p)
    × (lines_of q ≡ lines)
    × (closer_of q ≡ closer_of p)
    × (q.body ≡ p.body)

whole_again :
    (raw : Text) (p : SplitFrontmatter) (crlf : Bool) (line : Text) (lines : List Text)
    → split_frontmatter raw ≡ some p
    → IsClear crlf line
    → AreClear crlf lines
    → strip_prefix fence line ≡ none
    → ends_line (p.tail ++ p.body) ≡ true
    → IsSplitAgain p
        (opener_of p ++ (block_of (eol crlf) (line ∷ lines) ++ (closer_of p ++ p.body)))
        (line ∷ lines)
unfolding lines_of
whole_again raw p crlf line lines h clear clears first closed = (
  record p { block = lines_text crlf (line ∷ lines) },
  subst
      (λ b.
        split_frontmatter (opener_of p ++ (b ++ (closer_of p ++ p.body)))
        ≡ some (record p { block = lines_text crlf (line ∷ lines) }))
      (sym (block_of-lines crlf (line ∷ lines)))
      (split_frontmatter-again raw p crlf line lines h clear clears first closed),
  refl,
  frontmatter_lines-lines_text crlf line lines clear clears,
  refl,
  refl,
)

pub parts_again :
    (raw : Text) (p : SplitFrontmatter) (crlf : Bool) (before : List Text) (line : Text)
    (rest : List Text)
    → split_frontmatter raw ≡ some p
    → AreClear crlf before
    → StartsOpen before
    → IsClear crlf line
    → strip_prefix fence line ≡ none
    → AreClear crlf rest
    → ends_line (p.tail ++ p.body) ≡ true
    → IsSplitAgain p
        (opener_of p ++ (block_of (eol crlf) (before ++ line ∷ rest) ++ (closer_of p ++ p.body)))
        (before ++ line ∷ rest)
parts_again raw p crlf [] line rest h k o clear first clears closed =
    whole_again raw p crlf line rest h clear clears first closed
parts_again raw p crlf (b ∷ before) line rest h (k, ks) o clear first clears closed =
    whole_again raw p crlf b (before ++ line ∷ rest) h k
      (All-append (IsClear crlf) before (line ∷ rest) ks (clear, clears)) o closed
