-- ===== src/Pages/Tag.antt =====
-- The commands `tag` and `untag` (cli/commands/tag.ts).
pub mod Laws
use codealmanac.Prelude.{
  ℕ, suc, ◌+◌, Bool, true, false, not, ◌&&◌, ◌||◌, ltb, Option, none, some, List, [], ◌∷◌, ◌++◌,
  map, keep, length, Text, contains, same, trim, is_empty, if◌then◌else◌, get_key, set_key,
}
use codealmanac.Slug.{to_kebab_case}
use codealmanac.Topics.File.{TopicsFile, ensure_topic}
use codealmanac.Topics.Commands.Edit.{without}
use codealmanac.Pages.Split.{split_newlines}
use codealmanac.Pages.Read.{FlowValue}
use codealmanac.Pages.Rewrite.{TransformApplied, apply_topics_transform}

-- The page files by path, topics.yaml, and whether the indexer has run.
pub record Wiki : Type 0 where
  pub files : List (Text × Text)
  pub topics_file : TopicsFile
  pub indexed : Bool

-- What is printed, without the wording. `threw` is a page file that is not there.
pub data TagReply : Type 0 where
  no_topic no_stdin no_page_slug threw : TagReply
  no_such_pages : List Text → TagReply
  tagged : ℕ → List Text → TagReply
  untagged not_tagged : TagReply

pub record TagRun : Type 0 where
  pub reply : TagReply
  pub wiki : Wiki

unfoldable pub tag_exit_code : TagReply → ℕ
tag_exit_code (tagged changed []) = 0
tag_exit_code untagged = 0
tag_exit_code not_tagged = 0
tag_exit_code _ = 1

abbrev pub refuse_tag : TagReply → Wiki → TagRun
refuse_tag reply wiki = record { reply = reply; wiki = wiki }

-- `--stdin` with its input, or the positional argument.
pub data PageSource : Type 0 where
  from_stdin : Option Text → PageSource
  from_argument : Option Text → PageSource

pub data RequestedPages : Type 0 where
  refused : TagReply → RequestedPages
  requested : List Text → RequestedPages

abbrev pub filled : List Text → List Text
filled list = keep (λ s. not (is_empty s)) list

unfoldable pub requested_pages : PageSource → RequestedPages
unfolding split_newlines trim
requested_pages (from_stdin none) = refused no_stdin
requested_pages (from_stdin (some input)) = requested (filled (map trim (split_newlines input)))
requested_pages (from_argument none) = refused no_page_slug
requested_pages (from_argument (some slug)) =
    if is_empty slug then refused no_page_slug else requested (slug ∷ [])

-- The rows of the pages that the database knows, by file path, and the others.
abbrev pub push_resolved : Option Text → Text → List Text × List Text → List Text × List Text
push_resolved none page (paths, missing) = (paths, page ∷ missing)
push_resolved (some path) page (paths, missing) = (path ∷ paths, missing)

unfoldable pub resolve_pages : (Text → Option Text) → List Text → List Text × List Text
resolve_pages find_page [] = ([], [])
resolve_pages find_page (page ∷ pages) =
    push_resolved (find_page (to_kebab_case page)) page (resolve_pages find_page pages)

unfoldable pub ensure_topics : List Text → TopicsFile → TopicsFile
unfolding ensure_topic
ensure_topics [] file = file
ensure_topics (t ∷ topics) file = ensure_topics topics (ensure_topic file t)

-- The current topics, and behind them the requested ones that are not among them.
unfoldable pub with_topics : List Text → List Text → List Text
unfolding contains
with_topics topics current = current ++ keep (λ t. not (contains t current)) topics

module _ (load : Text → FlowValue) (dump : Text → Text) where
  -- `rewritePageTopics` on the file's content: nothing is written if nothing has changed.
  abbrev pub put_page : Text → TransformApplied → List (Text × Text) → List (Text × Text)
  put_page path applied files = if applied.changed then set_key path applied.output files else files

  abbrev pub count_changed : TransformApplied → ℕ → ℕ
  count_changed applied changed = if applied.changed then changed + 1 else changed

  -- The loop over the resolved pages: how many have changed, unless a file is not there.
  unfoldable pub tag_pages :
      List Text → (List Text → List Text) → ℕ → List (Text × Text) → Option ℕ × List (Text × Text)
  unfolding apply_topics_transform
  tag_pages [] transform changed files = (some changed, files)
  tag_pages (path ∷ paths) transform changed files = elim (get_key path files) [
    | none ↦ (none, files)
    | some raw ↦
        let applied = apply_topics_transform load dump raw transform in
        tag_pages paths transform (count_changed applied changed) (put_page path applied files)
  ]

  abbrev pub finish_tag :
      TopicsFile → Bool → List Text → Wiki → Option ℕ × List (Text × Text) → TagRun
  finish_tag file file_changed missing wiki (none, files) =
      refuse_tag threw (record wiki { files = files; topics_file = file })
  finish_tag file file_changed missing wiki (some changed, files) = record {
    reply = tagged changed missing;
    wiki = record {
      files = files;
      topics_file = file;
      indexed = if ltb 0 changed || file_changed then true else wiki.indexed;
    };
  }

  unfoldable pub tag_resolved : List Text → List Text × List Text → Wiki → TagRun
  unfolding ensure_topics tag_pages with_topics
  tag_resolved topics ([], missing) wiki = refuse_tag (no_such_pages missing) wiki
  tag_resolved topics (path ∷ paths, missing) wiki =
      let file = ensure_topics topics wiki.topics_file in
      finish_tag file (ltb (length wiki.topics_file) (length file)) missing wiki
        (tag_pages (path ∷ paths) (with_topics topics) 0 wiki.files)

  unfoldable pub tag_requested : (Text → Option Text) → List Text → RequestedPages → Wiki → TagRun
  unfolding tag_resolved resolve_pages
  tag_requested find_page topics (refused reply) wiki = refuse_tag reply wiki
  tag_requested find_page topics (requested pages) wiki =
      tag_resolved topics (resolve_pages find_page pages) wiki

  unfoldable pub tag_topics : (Text → Option Text) → List Text → PageSource → Wiki → TagRun
  unfolding requested_pages tag_requested
  tag_topics find_page [] source wiki = refuse_tag no_topic wiki
  tag_topics find_page (t ∷ topics) source wiki =
      tag_requested find_page (t ∷ topics) (requested_pages source) wiki

  -- `find_page` is the row's `file_path` for a slug.
  unfoldable pub run_tag : (Text → Option Text) → List Text → PageSource → Wiki → TagRun
  unfolding tag_topics
  run_tag find_page topics source wiki =
      tag_topics find_page (filled (map to_kebab_case topics)) source wiki

  abbrev pub finish_untag : Wiki → Option ℕ × List (Text × Text) → TagRun
  finish_untag wiki (none, files) = refuse_tag threw wiki
  finish_untag wiki (some changed, files) =
      if ltb 0 changed
      then record { reply = untagged; wiki = record wiki { files = files; indexed = true } }
      else refuse_tag not_tagged wiki

  unfoldable pub untag_found : Option Text → Text → Text → Wiki → TagRun
  unfolding tag_pages
  untag_found none page topic wiki = refuse_tag (no_such_pages (page ∷ [])) wiki
  untag_found (some path) page topic wiki =
      finish_untag wiki (tag_pages (path ∷ []) (without topic) 0 wiki.files)

  unfoldable pub untag_slugs : (Text → Option Text) → Text → Text → Wiki → TagRun
  unfolding untag_found
  untag_slugs find_page page topic wiki =
      if is_empty page
      then refuse_tag no_page_slug wiki
      else if is_empty topic
      then refuse_tag no_topic wiki
      else untag_found (find_page page) page topic wiki

  unfoldable pub run_untag : (Text → Option Text) → Text → Text → Wiki → TagRun
  unfolding untag_slugs
  run_untag find_page page topic wiki =
      untag_slugs find_page (to_kebab_case page) (to_kebab_case topic) wiki
