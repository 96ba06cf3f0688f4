-- ===== src/Slug.antt =====
-- archive/code/src/slug.ts: the kebab-case slugs that key topics, pages and review items.
pub mod Laws
mod Tests
use codealmanac.Prelude.{
  ℕ, Bool, true, false, not, ◌&&◌, ◌||◌, [], ◌∷◌, leb, ◌==◌, if◌then◌else◌, Text, lower_letters,
  drop_start, drop_end,
}

-- `[a-z0-9]`
abbrev pub is_alnum : ℕ → Bool
is_alnum c = (leb b'a' c && leb c b'z') || (leb b'0' c && leb c b'9')

abbrev pub hyphen : ℕ
hyphen = b'-'

abbrev pub is_hyphen : ℕ → Bool
is_hyphen c = c == hyphen

-- `.replace(/[^a-z0-9]+/g, "-")`; the flag says that the last unit was part of a run.
unfoldable pub collapse : Bool → Text → Text
collapse run [] = []
collapse run (c ∷ s) =
    let rest = collapse (not (is_alnum c)) s in
    if is_alnum c then c ∷ rest else if run then rest else hyphen ∷ rest

-- `.replace(/^-+|-+$/g, "")`
unfoldable pub trim_hyphens : Text → Text
trim_hyphens s = drop_end is_hyphen (drop_start is_hyphen s)

unfoldable pub to_kebab_case : Text → Text
unfolding collapse trim_hyphens lower_letters
to_kebab_case input = trim_hyphens (collapse false (lower_letters input))
