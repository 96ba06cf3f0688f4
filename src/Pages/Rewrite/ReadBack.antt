-- ===== src/Pages/Rewrite/ReadBack.antt =====
-- Reading the topics that a rewrite has written (wiki/topics/frontmatter-rewrite.ts).
use codealmanac.Prelude.{
  ℕ, suc, Bool, true, false, not, ◌||◌, ◌==◌, ◌≡◌, refl, ap, ◌∙◌, subst, inl, inr, none, some, List,
  [], ◌∷◌, ◌++◌, map, Text, codes, Bool-cases, Option-cases, arith, is_empty, is_space, trim,
  drop_end, put_unless, take, length, All, All-append,
}
use codealmanac.Pages.Split.{strip_prefix}
use codealmanac.Pages.Scalars.{
  before_comment, strip_trailing_comment, is_plain_char, all_plain, is_plain, join_text,
  format_scalar, flow_list,
}
use codealmanac.Pages.Read.{
  FlowValue, sequence, ExistingRange, is_topics_key, find_topics_key, after_colon, value_of,
  strings_of, drop, line_at, read_value, read_topics,
}
use codealmanac.Pages.Rewrite.{topics_line, next_lines, none_left}

-- Neither a quote nor a comment sign.
abbrev is_quiet : ℕ → Bool
is_quiet c = not (c == b'\'' || c == b'"' || c == b'#')

abbrev AreQuiet : Text → Type 0
AreQuiet s = All (λ c. is_quiet c ≡ true) s

before_comment_quiet : (s : Text) → AreQuiet s → before_comment s false false ≡ none
unfolding before_comment
before_comment_quiet [] h = refl
before_comment_quiet (c ∷ s) (q, h) = ground (arith, before_comment_quiet s h)

all_plain-AreQuiet : (s : Text) → all_plain s ≡ true → AreQuiet s
all_plain-AreQuiet [] h = tt
all_plain-AreQuiet (c ∷ s) h = (ground arith, all_plain-AreQuiet s (ground arith))

is_plain-AreQuiet : (s : Text) → is_plain s ≡ true → AreQuiet s
is_plain-AreQuiet [] h = tt
is_plain-AreQuiet (c ∷ s) h = (ground arith, all_plain-AreQuiet s (ground arith))

put_unless_before :
    (b : Bool) (d : ℕ) (s : Text) (c : ℕ) → put_unless b d (s ++ c ∷ []) ≡ d ∷ (s ++ c ∷ [])
put_unless_before true d [] c = refl
put_unless_before false d [] c = refl
put_unless_before true d (x ∷ s) c = refl
put_unless_before false d (x ∷ s) c = refl

drop_end_last :
    (p : ℕ → Bool) (s : Text) (c : ℕ) → p c ≡ false → drop_end p (s ++ c ∷ []) ≡ s ++ c ∷ []
drop_end_last p [] c h = rw h refl
drop_end_last p (d ∷ s) c h = rw (drop_end_last p s c h) (put_unless_before (p d) d s c)

-- A plain word is left as it is by `trim`.
all_plain-drop_end : (s : Text) → all_plain s ≡ true → drop_end is_space s ≡ s
all_plain-drop_end [] h = refl
all_plain-drop_end (c ∷ s) h = ground (arith, all_plain-drop_end s (ground arith))

trim_plain : (s : Text) → is_plain s ≡ true → (trim s ≡ s) × (is_empty s ≡ false)
unfolding trim
trim_plain [] h = absurd (cc h)
trim_plain (c ∷ s) h =
    let letter : is_plain_char c ≡ true = ground arith in
    let rest : drop_end is_space s ≡ s = all_plain-drop_end s (ground arith) in
    ground (arith, letter, rest)

abbrev pub ArePlain : List Text → Type 0
ArePlain topics = All (λ s. is_plain s ≡ true) topics

strings_of_plain : (topics : List Text) → ArePlain topics → strings_of (map some topics) ≡ topics
unfolding strings_of
strings_of_plain [] h = refl
strings_of_plain (s ∷ topics) (p, h) =
    let (same, full) = trim_plain s p in rw (same, full, strings_of_plain topics h) refl

AreQuiet-join_text :
    (topics : List Text) → ArePlain topics → AreQuiet (join_text (codes ", ") topics)
unfolding join_text
AreQuiet-join_text [] h = tt
AreQuiet-join_text (s ∷ []) (p, h) = is_plain-AreQuiet s p
AreQuiet-join_text (s ∷ t ∷ topics) (p, h) =
    All-append _ s _ (is_plain-AreQuiet s p) (refl, (refl, AreQuiet-join_text (t ∷ topics) h))

strip_quiet : (s : Text) → AreQuiet s → strip_trailing_comment s ≡ s
unfolding strip_trailing_comment
strip_quiet s h = rw (before_comment_quiet s h, strip_trailing_comment) refl

module _ (dump : Text → Text) where
  pub format_plain :
      (topics : List Text) → ArePlain topics → map (format_scalar dump) topics ≡ topics
  unfolding format_scalar
  format_plain [] h = refl
  format_plain (s ∷ topics) (p, h) = rw (p, format_plain topics h) refl

  -- The list on its line, as the reader cuts it out.
  value_of-topics_line :
      (topics : List Text)
      → ArePlain topics
      → value_of (topics_line dump topics) ≡ flow_list dump topics
  unfolding value_of topics_line flow_list after_colon trim strip_trailing_comment
  value_of-topics_line topics h =
      let items = join_text (codes ", ") (map (format_scalar dump) topics) in
      let quiet_items : AreQuiet items = rw (format_plain topics h) (AreQuiet-join_text topics h) in
      let quiet : AreQuiet (b'[' ∷ (items ++ b']' ∷ [])) =
        (refl, All-append _ items _ quiet_items (refl, tt)) in
      ap strip_trailing_comment (drop_end_last is_space (b'[' ∷ items) b']' refl)
      ∙ strip_quiet (b'[' ∷ (items ++ b']' ∷ [])) quiet

  is_topics_key-topics_line : (topics : List Text) → is_topics_key (topics_line dump topics) ≡ true
  unfolding is_topics_key topics_line strip_prefix
  is_topics_key-topics_line topics = refl

HasNoKey : List Text → Type 0
HasNoKey lines = All (λ line. is_topics_key line ≡ false) lines

find_topics_key-none : (lines : List Text) → find_topics_key lines ≡ none → HasNoKey lines
unfolding find_topics_key HasNoKey
find_topics_key-none [] h = tt
find_topics_key-none (line ∷ lines) h = elim (Option-cases (find_topics_key lines)) [
  | inl e ↦ (ground (arith, e), find_topics_key-none lines e)
  | inr (i, e) ↦ ground (arith, e)
]

find_topics_key-some :
    (lines : List Text) (i : ℕ)
    → find_topics_key lines ≡ some i
    → HasNoKey (take i lines) × (length (take i lines) ≡ i)
unfolding find_topics_key HasNoKey
find_topics_key-some [] i h = absurd (cc h)
find_topics_key-some (line ∷ lines) i h = elim (Bool-cases (is_topics_key line)) [
  | inl own ↦
      let e : 0 ≡ i = ground (arith, own) in
      subst (λ n. HasNoKey (take n (line ∷ lines)) × (length (take n (line ∷ lines)) ≡ n)) e
        (tt, refl)
  | inr other ↦ elim (Option-cases (find_topics_key lines)) [
    | inl e ↦ absurd (ground (arith, other, e))
    | inr (j, e) ↦
        let f : suc j ≡ i = ground (arith, other, e) in
        let (keys, size) = find_topics_key-some lines j e in
        subst (λ n. HasNoKey (take n (line ∷ lines)) × (length (take n (line ∷ lines)) ≡ n)) f
          ((other, keys), ap suc size)
  ]
]

find_topics_key-append :
    (before : List Text) (line : Text) (after : List Text)
    → HasNoKey before
    → is_topics_key line ≡ true
    → (find_topics_key (before ++ line ∷ after) ≡ some (length before))
      × (line_at (length before) (before ++ line ∷ after) ≡ line)
unfolding find_topics_key HasNoKey
find_topics_key-append [] line after h k = (rw k refl, refl)
find_topics_key-append (x ∷ before) line after (n, h) k =
    let (e, f) = find_topics_key-append before line after h k in (ground (arith, n, e), f)

module _ (load : Text → FlowValue) (dump : Text → Text) where
  read_topics_line :
      (before after : List Text) (topics : List Text)
      → HasNoKey before
      → ArePlain topics
      → load (flow_list dump topics) ≡ sequence (map some topics)
      → (read_topics load (before ++ topics_line dump topics ∷ after)).before ≡ topics
  unfolding read_topics read_value strings_of
  read_topics_line before after topics keys plain loads =
      let (found, line) =
        find_topics_key-append before (topics_line dump topics) after keys
          (is_topics_key-topics_line dump topics) in
      let value = value_of-topics_line dump topics plain in
      let full : is_empty (flow_list dump topics) ≡ false = unfold flow_list in refl in
      rw (found, read_topics, line, value, full, loads) (strings_of_plain topics plain)

  range-HasNoKey :
      (lines : List Text) (range : ExistingRange)
      → (read_topics load lines).range ≡ some range
      → HasNoKey (take range.start lines)
  unfolding read_topics read_value
  range-HasNoKey lines range h = elim (Option-cases (find_topics_key lines)) [
    | inl e ↦ absurd (cc (rw (e, read_topics) at h))
    | inr (i, e) ↦
        let f : i ≡ range.start = ground (arith, e) in
        subst (λ n. HasNoKey (take n lines)) f (find_topics_key-some lines i e).0
  ]

  no_range-HasNoKey : (lines : List Text) → (read_topics load lines).range ≡ none → HasNoKey lines
  unfolding read_topics read_value
  no_range-HasNoKey lines h = elim (Option-cases (find_topics_key lines)) [
    | inl e ↦ find_topics_key-none lines e
    | inr (i, e) ↦ ground (arith, e)
  ]

  -- The lines that take the place of the old ones hold the new topics.
  pub read_topics-next_lines :
      (lines topics : List Text)
      → none_left topics ≡ false
      → ArePlain topics
      → load (flow_list dump topics) ≡ sequence (map some topics)
      → (read_topics load (next_lines dump lines (read_topics load lines).range topics)).before
        ≡ topics
  unfolding next_lines
  read_topics-next_lines lines topics some_left plain loads =
      elim (Option-cases (read_topics load lines).range) [
        | inl e ↦
            rw (e, next_lines)
              (read_topics_line lines [] topics (no_range-HasNoKey lines e) plain loads)
        | inr (range, e) ↦
            rw (e, next_lines, some_left)
              (read_topics_line (take range.start lines) (range.preserved ++ drop range.end lines)
                topics (range-HasNoKey lines range e) plain loads)
      ]
