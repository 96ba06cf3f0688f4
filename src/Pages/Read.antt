-- ===== src/Pages/Read.antt =====
-- The topics in the frontmatter's lines (`readTopicsFromLines` in
-- wiki/topics/frontmatter-rewrite.ts).
use codealmanac.Prelude.{
  ℕ, zero, suc, ◌+◌, Bool, true, false, not, ◌&&◌, ◌||◌, Option, none, some, List, [], ◌∷◌, ◌++◌,
  Text, codes, ◌==◌, if◌then◌else◌, is_empty, is_space, trim, drop_start, or_else,
}
use codealmanac.Pages.Split.{strip_prefix}
use codealmanac.Pages.Scalars.{strip_trailing_comment, parse_scalar}

abbrev pub starts_with : ℕ → Text → Bool
starts_with q [] = false
starts_with q (c ∷ s) = c == q

-- `/^topics\s*:/`
unfoldable pub is_topics_key : Text → Bool
unfolding strip_prefix
is_topics_key line = elim (strip_prefix (codes "topics") line) [
  | none ↦ false
  | some rest ↦ starts_with b':' (drop_start is_space rest)
]

unfoldable pub find_topics_key : List Text → Option ℕ
unfolding is_topics_key
find_topics_key [] = none
find_topics_key (line ∷ lines) =
    if is_topics_key line
    then some 0
    else elim (find_topics_key lines) [ none ↦ none | some i ↦ some (i + 1) ]

-- `line.slice(line.indexOf(":") + 1)`
unfoldable pub after_colon : Text → Option Text
after_colon [] = none
after_colon (c ∷ s) = let rest = after_colon s in if c == b':' then some s else rest

unfoldable pub value_of : Text → Text
unfolding after_colon trim strip_trailing_comment
value_of line = strip_trailing_comment (trim (or_else (after_colon line) line))

-- The characters that `.` does not match.
abbrev pub is_terminator : ℕ → Bool
is_terminator c = c == 10 || c == 13 || c == 0x2028 || c == 0x2029

abbrev pub is_one_line : Text → Bool
is_one_line [] = true
is_one_line (c ∷ s) = not (is_terminator c) && is_one_line s

-- `/^\s*-\s+(.*)$/`
abbrev pub after_dash : Text → Option Text
after_dash [] = none
after_dash (c ∷ s) =
    if is_space c && is_one_line (drop_start is_space s) then some (drop_start is_space s) else none

abbrev pub match_entry : Text → Option Text
match_entry [] = none
match_entry (c ∷ s) = if c == b'-' then after_dash s else none

-- A blank line or a comment, an entry, or a line that ends the list.
pub data LineKind : Type 0 where
  filler : LineKind
  entry : Text → LineKind
  ending : LineKind

abbrev pub entry_or_end : Option Text → LineKind
entry_or_end none = ending
entry_or_end (some s) = entry (parse_scalar (strip_trailing_comment (trim s)))

unfoldable pub kind_of : Text → LineKind
unfolding trim strip_trailing_comment parse_scalar
kind_of line =
    if is_empty (trim line) || starts_with b'#' (trim line)
    then filler
    else entry_or_end (match_entry (drop_start is_space line))

-- `read` counts the lines since the key, and `length` those up to the last entry.
pub record BlockScan : Type 0 where
  pub values : List Text
  pub preserved : List Text
  pub pending : List Text
  pub read : ℕ
  pub length : ℕ

abbrev pub push_value : Text → List Text → List Text
push_value [] values = values
push_value (c ∷ s) values = values ++ (c ∷ s) ∷ []

abbrev pub add_filler : Text → BlockScan → BlockScan
add_filler line scan = record scan { pending = scan.pending ++ line ∷ []; read = scan.read + 1 }

abbrev pub push_entry : Text → BlockScan → BlockScan
push_entry value scan = record {
  values = push_value value scan.values;
  preserved = scan.preserved ++ scan.pending;
  pending = [];
  read = scan.read + 1;
  length = scan.read + 1;
}

unfoldable pub scan_block : List Text → BlockScan → BlockScan
unfolding kind_of
scan_block [] scan = scan
scan_block (line ∷ lines) scan = elim (kind_of line) [
  | filler ↦ scan_block lines (add_filler line scan)
  | entry value ↦ scan_block lines (push_entry value scan)
  | ending ↦ scan
]

pub record ExistingRange : Type 0 where
  pub start : ℕ
  pub end : ℕ
  pub preserved : List Text

pub record TopicsInLines : Type 0 where
  pub before : List Text
  pub range : Option ExistingRange

-- What the YAML package makes of a value; a value that it refuses counts as null.
pub data FlowValue : Type 0 where
  sequence : List (Option Text) → FlowValue
  scalar : Text → FlowValue
  neither : FlowValue

-- The strings that are not blank, trimmed.
unfoldable pub strings_of : List (Option Text) → List Text
unfolding trim
strings_of [] = []
strings_of (none ∷ items) = strings_of items
strings_of (some s ∷ items) =
    let rest = strings_of items in if is_empty (trim s) then rest else trim s ∷ rest

abbrev pub flow_topics : FlowValue → List Text
flow_topics (sequence items) = strings_of items
flow_topics (scalar s) = strings_of (some s ∷ [])
flow_topics neither = []

abbrev pub drop : ℕ → List Text → List Text
drop zero lines = lines
drop (suc n) [] = []
drop (suc n) (line ∷ lines) = drop n lines

abbrev pub line_at : ℕ → List Text → Text
line_at n [] = []
line_at zero (line ∷ lines) = line
line_at (suc n) (line ∷ lines) = line_at n lines

abbrev pub no_scan : BlockScan
no_scan = record { values = []; preserved = []; pending = []; read = 0; length = 0 }

-- `load` is `yaml.load`.
module _ (load : Text → FlowValue) where
  unfoldable pub read_value : List Text → ℕ → Text → TopicsInLines
  unfolding scan_block
  read_value lines start value =
      if is_empty value
      then (let scan = scan_block (drop (start + 1) lines) no_scan in
          record {
            before = scan.values;
            range = some (record {
              start = start;
              end = start + 1 + scan.length;
              preserved = scan.preserved;
            });
          })
      else record {
        before = flow_topics (load value);
        range = some (record { start = start; end = start + 1; preserved = [] });
      }

  unfoldable pub read_topics : List Text → TopicsInLines
  unfolding find_topics_key value_of read_value
  read_topics lines = elim (find_topics_key lines) [
    | none ↦ record { before = []; range = none }
    | some start ↦ read_value lines start (value_of (line_at start lines))
  ]
