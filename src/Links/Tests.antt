-- ===== src/Links/Tests.antt =====
-- References in a page.
use codealmanac.Prelude.{
  LowerAt, to_lower_char, arith, Bool, true, false, ◌≡◌, ◌↔◌, refl, some, [], ◌∷◌, Text, codes,
  same,
}
use codealmanac.Links.Paths.{normalize_path, looks_like_dir}
use codealmanac.Links.Paths.Lower.{IsLowering}
use codealmanac.Links.Wikilinks.{page, file, folder, xwiki, classify_wikilink, extract_wikilinks}
use codealmanac.Links.Wikilinks.Laws.{IsProper, classify_wikilink-IsProper}
use codealmanac.Links.Mentions.{
  FileRef, build_file_mention_filter, is_mentioned, parent_folder_prefixes,
}
use codealmanac.Links.Mentions.Laws.{Mentions, is_mentioned_iff}

abbrev ascii_lower_at : LowerAt
ascii_lower_at before c after = to_lower_char c

ascii-IsLowering : IsLowering ascii_lower_at
ascii-IsLowering = record {
  ascii = λ before after c h. refl;
  beyond = λ before after c h. ground arith;
}

links_are_found :
    extract_wikilinks ascii_lower_at
      (codes "see [[Checkout Flow|it]], [[./Src//A.ts]] and [[[web:a/b]] [[]]")
    ≡ page (codes "checkout-flow")
      ∷ file (codes "src/a.ts") (codes "Src/A.ts")
      ∷ xwiki (codes "[web") (codes "a/b")
      ∷ []
unfolding extract_wikilinks codealmanac.Slug.to_kebab_case
links_are_found = refl

-- A path in stored form, with a blank after the dot and the slash, is not left as it is.
stored_twice :
    normalize_path ascii_lower_at (normalize_path ascii_lower_at (codes "./ src") false) false
    ≡ codes "src"
unfolding normalize_path
stored_twice = refl

stored_once : normalize_path ascii_lower_at (codes "./ src") false ≡ codes " src"
unfolding normalize_path
stored_once = refl

folders_of_a_file : parent_folder_prefixes (codes "src/a/b.ts") ≡ codes "src/" ∷ codes "src/a/" ∷ []
unfolding parent_folder_prefixes
folders_of_a_file = refl

src_is_a_folder :
    classify_wikilink ascii_lower_at (codes "Src/") ≡ some (folder (codes "src/") (codes "Src/"))
unfolding classify_wikilink
src_is_a_folder = refl

classify_wikilink-IsProper_example : IsProper ascii_lower_at (folder (codes "src/") (codes "Src/"))
classify_wikilink-IsProper_example =
    classify_wikilink-IsProper ascii_lower_at (codes "Src/") (folder (codes "src/") (codes "Src/"))
      ascii-IsLowering src_is_a_folder

abbrev exactly : Text → Text → Bool
exactly pattern text = same pattern text

abbrev in_src : FileRef
in_src = record { path = codes "src/"; is_dir = true }

is_mentioned_iff_example :
    (is_mentioned exactly (build_file_mention_filter ascii_lower_at (codes "src/a.ts")) in_src
      ≡ true)
    ↔ Mentions (normalize_path ascii_lower_at (codes "src/a.ts") false) in_src
is_mentioned_iff_example =
    is_mentioned_iff ascii_lower_at exactly (codes "src/a.ts") in_src
      (unfold looks_like_dir in refl)
