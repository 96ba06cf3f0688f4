-- ===== src/Pages/Split.antt =====
-- The split of a page at its fences (`splitFrontmatter` in wiki/topics/frontmatter-rewrite.ts).
pub mod Laws
pub mod Again
pub mod Relines
use codealmanac.Prelude.{
  ℕ, Bool, true, false, ◌&&◌, ◌||◌, Option, none, some, List, [], ◌∷◌, ◌++◌, Text, codes, ◌==◌,
  if◌then◌else◌, is_empty, push_first,
}

abbrev pub fence : Text
fence = codes "---"

-- `s.startsWith(prefix)`, with what follows.
unfoldable pub strip_prefix : Text → Text → Option Text
strip_prefix [] s = some s
strip_prefix (c ∷ p) [] = none
strip_prefix (c ∷ p) (d ∷ s) = let rest = strip_prefix p s in if c == d then rest else none

-- `/^\r?\n/`: the line ending, and what follows.
abbrev pub line_feed : Text → Option Text
line_feed [] = none
line_feed (c ∷ s) = if c == 10 then some s else none

unfoldable pub take_newline : Text → Option (Text × Text)
take_newline [] = none
take_newline (c ∷ s) =
    if c == 10
    then some (10 ∷ [], s)
    else if c == 13
    then elim (line_feed s) [ none ↦ none | some t ↦ some (13 ∷ 10 ∷ [], t) ]
    else none

-- `/^(\r?\n|$)/`
abbrev pub ends_line : Text → Bool
ends_line s = is_empty s || elim (take_newline s) [ none ↦ false | some _ ↦ true ]

-- `/^\r?\n---(\r?\n|$)/`: the line ending, and what follows the dashes.
abbrev pub if_line_ends : Text → Option Text → Option (Text × Text)
if_line_ends newline none = none
if_line_ends newline (some t) = if ends_line t then some (newline, t) else none

unfoldable pub fence_at : Text → Option (Text × Text)
unfolding take_newline strip_prefix
fence_at s = elim (take_newline s) [
  | none ↦ none
  | some (newline, t) ↦ if_line_ends newline (strip_prefix fence t)
]

-- The first match: what is before the dashes, and what follows them.
unfoldable pub find_fence : Text → Option (Text × Text)
unfolding fence_at
find_fence [] = none
find_fence (c ∷ s) = elim (fence_at (c ∷ s)) [
  | some found ↦ some found
  | none ↦ elim (find_fence s) [ none ↦ none | some (block, t) ↦ some (c ∷ block, t) ]
]

-- `rest` up to the closing dashes: none before a line ending is asked for at the very beginning.
unfoldable pub frontmatter_block : Text → Option (Text × Text)
unfolding strip_prefix find_fence
frontmatter_block rest = elim (strip_prefix fence rest) [
  | some t ↦ some ([], t)
  | none ↦ find_fence rest
]

-- `s.replace(/\r?\n$/, "")`
abbrev pub is_newline : Text → Bool
is_newline s = elim (take_newline s) [ none ↦ false | some (newline, rest) ↦ is_empty rest ]

unfoldable pub drop_last_newline : Text → Text
unfolding take_newline
drop_last_newline [] = []
drop_last_newline (c ∷ s) =
    let rest = drop_last_newline s in if is_newline (c ∷ s) then [] else c ∷ rest

-- `s.split(/\r?\n/)`
abbrev pub starts_with_lf : Text → Bool
starts_with_lf [] = false
starts_with_lf (c ∷ s) = c == 10

unfoldable pub split_newlines : Text → List Text
split_newlines [] = [] ∷ []
split_newlines (c ∷ s) =
    let rest = split_newlines s in
    if c == 10 then [] ∷ rest else if c == 13 && starts_with_lf s then rest else push_first c rest

unfoldable pub frontmatter_lines : Text → List Text
unfolding drop_last_newline split_newlines
frontmatter_lines block = if is_empty block then [] else split_newlines (drop_last_newline block)

-- `/\r\n/.test(s)`
unfoldable pub has_crlf : Text → Bool
has_crlf [] = false
has_crlf (c ∷ s) = (c == 13 && starts_with_lf s) || has_crlf s

-- `newline` is the ending of the opener, `tail` that of the closer.
pub record SplitFrontmatter : Type 0 where
  pub newline : Text
  pub block : Text
  pub tail : Text
  pub body : Text

abbrev pub opener_of : SplitFrontmatter → Text
opener_of p = fence ++ p.newline

abbrev pub closer_of : SplitFrontmatter → Text
closer_of p = fence ++ p.tail

unfoldable pub lines_of : SplitFrontmatter → List Text
unfolding frontmatter_lines
lines_of p = frontmatter_lines p.block

unfoldable pub eol_of : SplitFrontmatter → Text
unfolding has_crlf
eol_of p = if has_crlf p.newline || has_crlf p.block then 13 ∷ 10 ∷ [] else 10 ∷ []

-- The closer's line ending, if there is one.
unfoldable pub split_closer : Text → Text × Text → SplitFrontmatter
unfolding take_newline
split_closer newline (block, after_dashes) = elim (take_newline after_dashes) [
  | none ↦ record { newline = newline; block = block; tail = []; body = after_dashes }
  | some (tail, body) ↦ record { newline = newline; block = block; tail = tail; body = body }
]

unfoldable pub split_opened : Text × Text → Option SplitFrontmatter
unfolding frontmatter_block split_closer
split_opened (newline, rest) = elim (frontmatter_block rest) [
  | none ↦ none
  | some found ↦ some (split_closer newline found)
]

unfoldable pub split_frontmatter : Text → Option SplitFrontmatter
unfolding strip_prefix take_newline split_opened
split_frontmatter raw = elim (strip_prefix fence raw) [
  | none ↦ none
  | some after_dashes ↦ elim (take_newline after_dashes) [
    | none ↦ none
    | some opened ↦ split_opened opened
  ]
]
