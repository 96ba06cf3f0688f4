-- ===== src/Links/Wikilinks.antt =====
-- The references in double brackets (wiki/indexer/wikilinks.ts).
pub mod Laws
use codealmanac.Prelude.{
  ℕ, zero, suc, ◌+◌, Bool, true, false, not, ◌&&◌, ◌||◌, ltb, Option, none, some, List, [], ◌∷◌,
  ◌++◌, Text, LowerAt, codes, ◌==◌, if◌then◌else◌, trim, is_empty, length, take,
}
use codealmanac.Slug.{to_kebab_case}
use codealmanac.Pages.Split.{strip_prefix}
use codealmanac.Links.Paths.{normalize_path, normalize_path_preserving_case, looks_like_dir}

pub data WikilinkRef : Type 0 where
  page : Text → WikilinkRef
  file : Text → Text → WikilinkRef
  folder : Text → Text → WikilinkRef
  xwiki : Text → Text → WikilinkRef

-- `s.indexOf(c)`, and what is on its two sides.
unfoldable pub split_at_first : ℕ → Text → Option (Text × Text)
split_at_first q [] = none
split_at_first q (c ∷ s) =
    let rest = split_at_first q s in
    if c == q
    then some ([], s)
    else elim rest [ none ↦ none | some (before, after) ↦ some (c ∷ before, after) ]

abbrev pub has_char : ℕ → Text → Bool
has_char q [] = false
has_char q (c ∷ s) = c == q || has_char q s

-- Before the first `|`.
abbrev pub or_whole : Text → Option (Text × Text) → Text
or_whole s none = s
or_whole s (some (before, after)) = before

unfoldable pub without_display : Text → Text
unfolding split_at_first
without_display raw = or_whole raw (split_at_first b'|' raw)

abbrev pub cross_wiki : Text → Text → Option WikilinkRef
cross_wiki wiki target = if is_empty wiki || is_empty target then none else some (xwiki wiki target)

abbrev pub file_or_folder : Bool → Text → Text → Option WikilinkRef
file_or_folder is_dir path original_path =
    if is_empty path
    then none
    else if is_dir
    then some (folder path original_path)
    else some (file path original_path)

abbrev pub page_link : Text → Option WikilinkRef
page_link target = if is_empty target then none else some (page target)

-- The second and the third rule.
unfoldable pub classify_local : LowerAt → Text → Option WikilinkRef
unfolding normalize_path normalize_path_preserving_case looks_like_dir
classify_local lower_at body =
    if has_char b'/' body
    then file_or_folder (looks_like_dir body) (normalize_path lower_at body (looks_like_dir body))
        (normalize_path_preserving_case body (looks_like_dir body))
    else page_link (to_kebab_case body)

-- The first rule asks for a colon, and for no slash before it.
unfoldable pub classify_body : LowerAt → Text → Option (Text × Text) → Option WikilinkRef
unfolding classify_local
classify_body lower_at body none = classify_local lower_at body
classify_body lower_at body (some (before, after)) =
    if has_char b'/' before
    then classify_local lower_at body
    else cross_wiki (trim before) (trim after)

unfoldable pub classify_wikilink : LowerAt → Text → Option WikilinkRef
unfolding without_display classify_body split_at_first trim
classify_wikilink lower_at raw =
    let body = trim (without_display raw) in
    if is_empty body then none else classify_body lower_at body (split_at_first b':' body)

-- `[^\]\n]+`, as long as it goes.
abbrev pub is_inside : ℕ → Bool
is_inside c = not (c == b']' || c == 10)

abbrev pub take_inside : Text → Text
take_inside [] = []
take_inside (c ∷ s) = let rest = take_inside s in if is_inside c then c ∷ rest else []

abbrev pub drop_inside : Text → Text
drop_inside [] = []
drop_inside (c ∷ s) = let rest = drop_inside s in if is_inside c then rest else c ∷ s

-- `/^\[\[([^\]\n]+)\]\]/`
abbrev pub closed_link : Text → Option Text → Option Text
closed_link inside none = none
closed_link inside (some rest) = if is_empty inside then none else some inside

abbrev pub opened_link : Option Text → Option Text
opened_link none = none
opened_link (some s) = closed_link (take_inside s) (strip_prefix (codes "]]") (drop_inside s))

unfoldable pub link_at : Text → Option Text
unfolding strip_prefix
link_at s = opened_link (strip_prefix (codes "[[") s)

abbrev pub push_ref : Option WikilinkRef → List WikilinkRef → List WikilinkRef
push_ref none refs = refs
push_ref (some ref) refs = ref ∷ refs

-- The matches from left to right; `skip` characters of the last one are still to come.
unfoldable pub scan_links : LowerAt → Text → ℕ → List WikilinkRef
unfolding link_at classify_wikilink
scan_links lower_at [] skip = []
scan_links lower_at (c ∷ s) (suc skip) = scan_links lower_at s skip
scan_links lower_at (c ∷ s) zero = elim (link_at (c ∷ s)) [
  | none ↦ scan_links lower_at s 0
  | some inside ↦
      push_ref (classify_wikilink lower_at inside) (scan_links lower_at s (length inside + 3))
]

unfoldable pub extract_wikilinks : LowerAt → Text → List WikilinkRef
unfolding scan_links
extract_wikilinks lower_at body = scan_links lower_at body 0
