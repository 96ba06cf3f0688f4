-- ===== src/Pages/Scalars.antt =====
-- YAML scalars on one line (wiki/topics/frontmatter-rewrite.ts).
use codealmanac.Prelude.{
  ℕ, Bool, true, false, not, ◌&&◌, ◌||◌, Option, none, some, List, [], ◌∷◌, ◌++◌, map, Text, codes,
  ◌==◌, leb, if◌then◌else◌, is_empty, is_space, trim, drop_end, contains,
}

-- Up to the first `#` outside of quotes.
unfoldable pub before_comment : Text → Bool → Bool → Option Text
before_comment [] in_single in_double = none
before_comment (c ∷ s) in_single in_double =
    let single = c == b'\'' && not in_double in
    let double = c == b'"' && not in_single in
    let rest =
      before_comment s (if single then not in_single else in_single)
        (if double then not in_double else in_double) in
    if c == b'#' && not in_single && not in_double
    then some []
    else elim rest [ none ↦ none | some t ↦ some (c ∷ t) ]

unfoldable pub strip_trailing_comment : Text → Text
unfolding before_comment
strip_trailing_comment s = elim (before_comment s false false) [
  | none ↦ s
  | some t ↦ drop_end is_space t
]

abbrev pub ends_with : ℕ → Text → Bool
ends_with q [] = false
ends_with q (c ∷ []) = c == q
ends_with q (c ∷ d ∷ s) = ends_with q (d ∷ s)

-- `s.length >= 2 && s[0] === q && s[s.length - 1] === q`
abbrev pub is_quoted : ℕ → Text → Bool
is_quoted q [] = false
is_quoted q (c ∷ s) = c == q && ends_with q s

abbrev pub drop_last : Text → Text
drop_last [] = []
drop_last (c ∷ []) = []
drop_last (c ∷ d ∷ s) = c ∷ drop_last (d ∷ s)

-- `s.slice(1, -1)`
abbrev pub inner : Text → Text
inner [] = []
inner (c ∷ s) = drop_last s

unfoldable pub parse_scalar : Text → Text
parse_scalar s = if is_quoted b'"' s || is_quoted b'\'' s then inner s else s

-- `/^[a-z0-9][a-z0-9-]*$/`
abbrev pub is_plain_char : ℕ → Bool
is_plain_char c = (leb b'a' c && leb c b'z') || (leb b'0' c && leb c b'9')

abbrev pub all_plain : Text → Bool
all_plain [] = true
all_plain (c ∷ s) = (is_plain_char c || c == b'-') && all_plain s

abbrev pub is_plain : Text → Bool
is_plain [] = false
is_plain (c ∷ s) = is_plain_char c && all_plain s

unfoldable pub join_text : Text → List Text → Text
join_text separator [] = []
join_text separator (s ∷ rest) = elim rest [
  | [] ↦ s
  | _ ∷ _ ↦ s ++ (separator ++ join_text separator rest)
]

-- `dump` is `yaml.dump(s, …).trimEnd()`.
module _ (dump : Text → Text) where
  unfoldable pub format_scalar : Text → Text
  format_scalar s = if is_plain s then s else dump s

  unfoldable pub flow_list : List Text → Text
  unfolding format_scalar join_text
  flow_list items = codes "[" ++ (join_text (codes ", ") (map format_scalar items) ++ codes "]")

-- The loop of `dedupeSlugs`: the texts that are not blank, trimmed, each once.
unfoldable pub dedupe_from : List Text → List Text → List Text
dedupe_from [] out = out
dedupe_from (raw ∷ list) out =
    dedupe_from list
      (if is_empty (trim raw) || contains (trim raw) out then out else out ++ trim raw ∷ [])

unfoldable pub dedupe_slugs : List Text → List Text
unfolding dedupe_from
dedupe_slugs list = dedupe_from list []
