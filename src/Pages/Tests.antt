-- ===== src/Pages/Tests.antt =====
-- Pages whose topics are rewritten.
use codealmanac.Prelude.{
  ℕ, Bool, true, false, ◌≡◌, ◌≢◌, refl, sym, ap, ◌⊎◌, inl, inr, Option, none, some, List, [], ◌∷◌,
  ◌++◌, map, Text, codes, if◌then◌else◌, trim, split_on, ◌==◌, is_empty,
}
use codealmanac.Pages.Split.{SplitFrontmatter, opener_of, closer_of, lines_of, split_frontmatter}
use codealmanac.Pages.Scalars.{inner, strip_trailing_comment}
use codealmanac.Pages.Read.{FlowValue, sequence, scalar, neither, read_topics}
use codealmanac.Pages.Rewrite.{apply_topics_transform}
use codealmanac.Pages.Rewrite.Body.{apply_topics_transform-body}
use codealmanac.Pages.Rewrite.Reread.{apply_topics_transform-split_frontmatter}
use codealmanac.Prelude.{same}
use codealmanac.Slug.{to_kebab_case}
use codealmanac.Pages.Tag.{Wiki, TagReply, TagRun, from_argument, filled, run_tag, run_untag}
use codealmanac.Pages.Tag.Laws.{IsTagged, run_tag-IsTagged}

-- A reader of flow lists of words, and a printer of words.
abbrev load_words : Text → FlowValue
load_words [] = neither
load_words (c ∷ s) =
    if c == b'['
    then sequence (map (λ w. some (trim w)) (split_on b',' (inner (c ∷ s))))
    else scalar (c ∷ s)

abbrev dump_word : Text → Text
dump_word s = s

abbrev line : Text → Text
line s = s ++ 10 ∷ []

abbrev page : Text
page =
    line (codes "---")
    ++ (line (codes "title: Login")
        ++ (line (codes "topics: [auth]") ++ (line (codes "---") ++ codes "Body")))

abbrev page_parts : SplitFrontmatter
page_parts = record {
  newline = 10 ∷ [];
  block = line (codes "title: Login") ++ line (codes "topics: [auth]");
  tail = 10 ∷ [];
  body = codes "Body";
}

abbrev add_jwt : List Text → List Text
add_jwt topics = topics ++ codes "jwt" ∷ []

page_splits : split_frontmatter page ≡ some page_parts
unfolding split_frontmatter
page_splits = refl

tagged_page :
    (apply_topics_transform load_words dump_word page add_jwt).output
    ≡ line (codes "---")
      ++ (line (codes "title: Login")
          ++ (line (codes "topics: [auth, jwt]") ++ (line (codes "---") ++ codes "Body")))
unfolding apply_topics_transform codealmanac.Pages.Read.strings_of split_on
    codealmanac.Prelude.contains
tagged_page = refl

apply_topics_transform-body_example :
    let r = apply_topics_transform load_words dump_word page add_jwt in
    (page ≡ opener_of page_parts ++ (page_parts.block ++ (closer_of page_parts ++ page_parts.body)))
    × (((r.before ≡ r.after) × (r.changed ≡ false) × (r.output ≡ page))
        ⊎ ((r.before ≢ r.after)
            × (r.changed ≡ true)
            × (block : Text) × (r.output
                ≡ opener_of page_parts ++ (block ++ (closer_of page_parts ++ page_parts.body)))))
apply_topics_transform-body_example =
    apply_topics_transform-body load_words dump_word page page_parts add_jwt page_splits

apply_topics_transform-split_frontmatter_example :
    let r = apply_topics_transform load_words dump_word page add_jwt in
    (q : SplitFrontmatter) × (split_frontmatter r.output ≡ some q)
    × (opener_of q ≡ opener_of page_parts)
    × (closer_of q ≡ closer_of page_parts)
    × (q.body ≡ page_parts.body)
    × ((read_topics load_words (lines_of q)).before ≡ r.after)
unfolding apply_topics_transform codealmanac.Pages.Read.strings_of split_on
    codealmanac.Prelude.contains lines_of
apply_topics_transform-split_frontmatter_example =
    apply_topics_transform-split_frontmatter load_words dump_word page page_parts add_jwt
      page_splits ((refl, refl, refl), ((refl, refl, refl), tt)) refl refl refl refl
      (refl, (refl, tt)) refl

-- A list of comments and entries: the comment between the entries is kept, below the new list.
abbrev block_page : Text
block_page =
    line (codes "---")
    ++ (line (codes "topics:")
        ++ (line (codes "  - auth # login")
            ++ (line (codes "  # why")
                ++ (line (codes "  - 'jwt'") ++ (line (codes "---") ++ [])))))

block_list_is_read :
    (apply_topics_transform load_words dump_word block_page
      (λ topics. topics ++ codes "api" ∷ [])).output
    ≡ line (codes "---")
      ++ (line (codes "topics: [auth, jwt, api]") ++ (line (codes "  # why") ++ line (codes "---")))
unfolding apply_topics_transform codealmanac.Prelude.contains
block_list_is_read = refl

-- The sign `#` inside of a word counts as a comment too: the rest of the list is lost.
comment_in_a_word : strip_trailing_comment (codes "[c#, auth]") ≡ codes "[c"
unfolding strip_trailing_comment
comment_in_a_word = refl

-- A word that YAML reads as a number is written without quotes, and the next rewrite drops it.
abbrev load_numbers : Text → FlowValue
load_numbers s = sequence (none ∷ [])

abbrev year_page : Text
year_page = line (codes "---") ++ (line (codes "topics: [2024]") ++ line (codes "---"))

year_is_lost :
    (apply_topics_transform load_numbers dump_word year_page add_jwt).output
    ≡ line (codes "---") ++ (line (codes "topics: [jwt]") ++ line (codes "---"))
unfolding apply_topics_transform codealmanac.Pages.Read.strings_of codealmanac.Prelude.contains
year_is_lost = refl

year_is_written_bare :
    (apply_topics_transform load_numbers dump_word
      (codes "Body")
      (λ topics. codes "2024" ∷ [])).output
    ≡ line (codes "---")
      ++ (line (codes "topics: [2024]") ++ (line (codes "---") ++ (10 ∷ codes "Body")))
unfolding apply_topics_transform codealmanac.Prelude.contains
year_is_written_bare = refl

abbrev wiki : Wiki
wiki = record { files = (codes "login.md", page) ∷ []; topics_file = []; indexed = false }

abbrev find_login : Text → Option Text
find_login slug = if same slug (codes "login") then some (codes "login.md") else none

abbrev tag_login : TagRun
tag_login =
    run_tag load_words dump_word find_login (codes "JWT" ∷ [])
      (from_argument (some (codes "Login"))) wiki

run_tag-IsTagged_example :
    IsTagged find_login
      (filled (map to_kebab_case (codes "JWT" ∷ [])))
      (from_argument (some (codes "Login")))
      wiki
      tag_login
run_tag-IsTagged_example =
    run_tag-IsTagged load_words dump_word find_login (codes "JWT" ∷ [])
      (from_argument (some (codes "Login"))) wiki

login_is_tagged : tag_login.reply ≡ TagReply.tagged 1 []
unfolding run_tag to_kebab_case codealmanac.Prelude.get_key codealmanac.Pages.Read.strings_of
    split_on
login_is_tagged = refl

auth_is_untagged :
    (run_untag load_words dump_word find_login (codes "login") (codes "auth") wiki).wiki.files
    ≡ (
      codes "login.md",
      line (codes "---") ++ (line (codes "title: Login") ++ (line (codes "---") ++ codes "Body")),
    )
      ∷ []
unfolding run_untag to_kebab_case codealmanac.Prelude.get_key codealmanac.Pages.Read.strings_of
    split_on codealmanac.Prelude.contains codealmanac.Prelude.set_key
auth_is_untagged = refl
