-- ===== src/Links/Wikilinks/Laws.antt =====
-- What a reference holds (wiki/indexer/wikilinks.ts).
use codealmanac.Prelude.{
  Bool, true, false, ◌≡◌, refl, subst, inl, inr, Option, none, some, [], ◌∷◌, Text, Bool-cases,
  is_empty, trim, to_lower, LowerAt,
}
use codealmanac.Slug.{to_kebab_case}
use codealmanac.Slug.Laws.{IsSlug, to_kebab_case-IsSlug}
use codealmanac.Links.Paths.{normalize_path, normalize_path_preserving_case, looks_like_dir}
use codealmanac.Links.Paths.Laws.{IsCanonical}
use codealmanac.Links.Paths.Lower.{IsLowering, normalize_path-IsCanonical}
use codealmanac.Links.Wikilinks.{
  WikilinkRef, page, file, folder, xwiki, split_at_first, has_char, without_display, cross_wiki,
  file_or_folder, page_link, classify_local, classify_body, classify_wikilink,
}

abbrev pub IsProper : LowerAt → WikilinkRef → Type 0
IsProper lower_at (page target) = (is_empty target ≡ false) × IsSlug target
IsProper lower_at (file path original_path) =
    (is_empty path ≡ false) × (path ≡ to_lower lower_at original_path) × IsCanonical false path
IsProper lower_at (folder path original_path) =
    (is_empty path ≡ false) × (path ≡ to_lower lower_at original_path) × IsCanonical true path
IsProper lower_at (xwiki wiki target) = (is_empty wiki ≡ false) × (is_empty target ≡ false)

module _ (lower_at : LowerAt) (lowers : IsLowering lower_at) where
  abbrev WhenSome : Option WikilinkRef → Type 0
  WhenSome none = Unit
  WhenSome (some ref) = IsProper lower_at ref

  file_or_folder-IsProper :
      (is_dir : Bool) (path original_path : Text)
      → path ≡ to_lower lower_at original_path
      → IsCanonical is_dir path
      → WhenSome (file_or_folder is_dir path original_path)
  file_or_folder-IsProper is_dir [] original_path e h = tt
  file_or_folder-IsProper true (c ∷ path) original_path e h = (refl, e, h)
  file_or_folder-IsProper false (c ∷ path) original_path e h = (refl, e, h)

  page_link-IsProper : (target : Text) → IsSlug target → WhenSome (page_link target)
  page_link-IsProper [] h = tt
  page_link-IsProper (c ∷ target) h = (refl, h)

  cross_wiki-IsProper : (wiki target : Text) → WhenSome (cross_wiki wiki target)
  cross_wiki-IsProper [] target = tt
  cross_wiki-IsProper (c ∷ wiki) [] = tt
  cross_wiki-IsProper (c ∷ wiki) (d ∷ target) = (refl, refl)

  same_but_case :
      (body : Text) (is_dir : Bool)
      → normalize_path lower_at body is_dir
        ≡ to_lower lower_at (normalize_path_preserving_case body is_dir)
  unfolding normalize_path normalize_path_preserving_case
  same_but_case body is_dir = refl

  classify_local-IsProper : (body : Text) → WhenSome (classify_local lower_at body)
  unfolding classify_local
  classify_local-IsProper body = elim (Bool-cases (has_char b'/' body)) [
    | inl slash ↦ rw slash (
        file_or_folder-IsProper (looks_like_dir body)
          (normalize_path lower_at body (looks_like_dir body))
          (normalize_path_preserving_case body (looks_like_dir body))
          (same_but_case body (looks_like_dir body))
          (normalize_path-IsCanonical lower_at lowers body (looks_like_dir body)))
    | inr bare ↦ rw bare (page_link-IsProper (to_kebab_case body) (to_kebab_case-IsSlug body))
  ]

  classify_body-IsProper :
      (body : Text) (o : Option (Text × Text)) → WhenSome (classify_body lower_at body o)
  unfolding classify_body
  classify_body-IsProper body none = classify_local-IsProper body
  classify_body-IsProper body (some (before, after)) = elim (Bool-cases (has_char b'/' before)) [
    | inl slash ↦ rw slash (classify_local-IsProper body)
    | inr bare ↦ rw bare (cross_wiki-IsProper (trim before) (trim after))
  ]

-- Let the lower case of ASCII be that of ASCII, and the lower case of any other character be
-- neither empty nor hold a slash or a backslash. What a reference is taken for is then well formed,
-- whatever stands in the brackets: a page is a slug that is not empty; a file or a folder has a
-- path that is not empty, is the lower case of the path that is kept beside it, has no
-- backslash and no double slash, and has a slash at the end for a folder only; and a page of
-- another wiki has both names.
pub classify_wikilink-IsProper :
    (lower_at : LowerAt) (raw : Text) (ref : WikilinkRef)
    → IsLowering lower_at
    → classify_wikilink lower_at raw ≡ some ref
    → IsProper lower_at ref
unfolding classify_wikilink
classify_wikilink-IsProper lower_at raw ref lowers h =
    let body = trim (without_display raw) in
    elim (Bool-cases (is_empty body)) [
      | inl blank ↦ absurd (cc (rw blank at h))
      | inr full ↦
          let k : classify_body lower_at body (split_at_first b':' body) ≡ some ref =
            rw full at h in
          subst (WhenSome lower_at lowers) k
            (classify_body-IsProper lower_at lowers body (split_at_first b':' body))
    ]
