-- ===== src/Pages/Tag/Laws.antt =====
-- What `tag` leaves of topics.yaml (cli/commands/tag.ts).
use codealmanac.Prelude.{
  ℕ, Bool, true, ◌≡◌, refl, sym, ap, ◌∙◌, ◌⊎◌, inl, inr, Option, none, some, List, [], ◌∷◌, map,
  Text, All, In, subst, ◌≢◌, Option-cases,
}
use codealmanac.Slug.{to_kebab_case}
use codealmanac.Topics.File.{TopicsFile, find_topic, ensure_topic, minimal_entry}
use codealmanac.Topics.File.Laws.{
  find_topic-append_self, Extends, Extends-trans, ensure_topic-Extends,
}
use codealmanac.Topics.Commands.{is_some}
use codealmanac.Pages.Read.{FlowValue}
use codealmanac.Pages.Tag.{
  Wiki, TagReply, TagRun, tag_exit_code, PageSource, from_stdin, from_argument, no_stdin,
  no_page_slug, RequestedPages, refused, requested, requested_pages, filled, resolve_pages,
  ensure_topics, finish_tag, tag_resolved, tag_requested, tag_topics, run_tag,
}

find_topic-ensure_topic :
    (file : TopicsFile) (slug : Text) → is_some (find_topic (ensure_topic file slug) slug) ≡ true
unfolding ensure_topic
find_topic-ensure_topic file slug = elim (Option-cases (find_topic file slug)) [
  | inl e ↦ rw (e, ensure_topic) (ap is_some (find_topic-append_self file (minimal_entry slug) e))
  | inr (t, e) ↦ rw (e, ensure_topic) (ap is_some e)
]

still_there :
    (a b : TopicsFile) (slug : Text)
    → Extends a b
    → is_some (find_topic a slug) ≡ true
    → is_some (find_topic b slug) ≡ true
still_there a b slug h k = elim (h slug) [ inl e ↦ cc (ap is_some e, k) | inr e ↦ ap is_some e ∙ k ]

ensure_topics-Extends :
    (topics : List Text) (file : TopicsFile) → Extends file (ensure_topics topics file)
unfolding ensure_topics
ensure_topics-Extends [] file = λ slug. inr refl
ensure_topics-Extends (t ∷ topics) file =
    Extends-trans file (ensure_topic file t) (ensure_topics topics (ensure_topic file t))
      (ensure_topic-Extends file t) (ensure_topics-Extends topics (ensure_topic file t))

-- Every one of the topics has an entry.
abbrev pub AreThere : TopicsFile → List Text → Type 0
AreThere file topics = All (λ t. is_some (find_topic file t) ≡ true) topics

ensure_topics-AreThere :
    (topics : List Text) (file : TopicsFile) → AreThere (ensure_topics topics file) topics
unfolding ensure_topics
ensure_topics-AreThere [] file = tt
ensure_topics-AreThere (t ∷ topics) file = (
  still_there (ensure_topic file t) (ensure_topics topics (ensure_topic file t)) t
      (ensure_topics-Extends topics (ensure_topic file t)) (find_topic-ensure_topic file t),
  ensure_topics-AreThere topics (ensure_topic file t),
)

-- One of the requested pages is in the database.
abbrev pub HasPage : (Text → Option Text) → PageSource → Type 0
HasPage find_page source =
    (pages : List Text) × (requested_pages source ≡ requested pages)
    × (page : Text) × In page pages
    × (path : Text) × (find_page (to_kebab_case page) ≡ some path)

-- Without a topic or without a page that is known, nothing is changed and the command fails; with
-- both, the topics are in the file, beside what was there.
abbrev pub IsTagged : (Text → Option Text) → List Text → PageSource → Wiki → TagRun → Type 0
IsTagged find_page topics source wiki run =
    (((topics ≡ []) ⊎ (¬ HasPage find_page source))
      × (run.wiki ≡ wiki)
      × (tag_exit_code run.reply ≡ 1))
    ⊎ ((topics ≢ [])
        × HasPage find_page source
        × AreThere run.wiki.topics_file topics
        × Extends wiki.topics_file run.wiki.topics_file)

IsKnown : (Text → Option Text) → List Text → Type 0
IsKnown find_page pages =
    (page : Text) × In page pages × (path : Text) × (find_page (to_kebab_case page) ≡ some path)

IsKnown-behind :
    (find_page : Text → Option Text) (page : Text) (pages : List Text)
    → IsKnown find_page pages
    → IsKnown find_page (page ∷ pages)
unfolding IsKnown
IsKnown-behind find_page page pages (p, i, path, e) = (p, inr i, path, e)

resolve_pages-cases :
    (find_page : Text → Option Text) (pages : List Text)
    → (((resolve_pages find_page pages).0 ≡ []) × (¬ IsKnown find_page pages))
      ⊎ ((path : Text) × (paths : List Text) × ((resolve_pages find_page pages).0 ≡ path ∷ paths)
          × IsKnown find_page pages)
unfolding resolve_pages IsKnown
resolve_pages-cases find_page [] = inl (refl, λ (p, i, path, e). i)
resolve_pages-cases find_page (page ∷ pages) =
    elim (Option-cases (find_page (to_kebab_case page))) [
      | inr (path, e) ↦
          inr (path, (resolve_pages find_page pages).0, rw e refl, (page, inl refl, path, e))
      | inl e ↦ elim (resolve_pages-cases find_page pages) [
        | inl (none_found, unknown) ↦ inl (
          rw e none_found,
          λ (p, i, path, f). elim i [
            | inl own ↦ cc (own, e, f)
            | inr later ↦ unknown (p, later, path, f)
          ],
        )
        | inr (path, paths, found, known) ↦
            inr (path, paths, rw e found, IsKnown-behind find_page page pages known)
      ]
    ]

fails_with :
    (given reply : TagReply)
    → refused given ≡ refused reply
    → tag_exit_code given ≡ 1
    → tag_exit_code reply ≡ 1
fails_with given reply h k = let e : given ≡ reply = cc (h) in sym (ap tag_exit_code e) ∙ k

refused-fails :
    (source : PageSource) (reply : TagReply)
    → requested_pages source ≡ refused reply
    → tag_exit_code reply ≡ 1
unfolding requested_pages tag_exit_code
refused-fails (from_stdin none) reply h = fails_with no_stdin reply h refl
refused-fails (from_stdin (some input)) reply h = absurd (cc h)
refused-fails (from_argument none) reply h = fails_with no_page_slug reply h refl
refused-fails (from_argument (some [])) reply h = fails_with no_page_slug reply h refl
refused-fails (from_argument (some (c ∷ slug))) reply h = absurd (cc h)

module _ (load : Text → FlowValue) (dump : Text → Text) where
  finish_tag-file :
      (file : TopicsFile) (file_changed : Bool) (missing : List Text) (wiki : Wiki)
      (o : Option ℕ × List (Text × Text))
      → (finish_tag load dump file file_changed missing wiki o).wiki.topics_file ≡ file
  finish_tag-file file file_changed missing wiki (none, files) = refl
  finish_tag-file file file_changed missing wiki (some changed, files) = refl

  tag_resolved-empty :
      (topics : List Text) (pages : List Text × List Text) (wiki : Wiki)
      → pages.0 ≡ []
      → let run = tag_resolved load dump topics pages wiki in
        (run.wiki ≡ wiki) × (tag_exit_code run.reply ≡ 1)
  unfolding tag_resolved tag_exit_code
  tag_resolved-empty topics ([], missing) wiki e = (refl, refl)
  tag_resolved-empty topics (path ∷ paths, missing) wiki e = absurd (cc e)

  tag_resolved-full :
      (topics : List Text) (pages : List Text × List Text) (wiki : Wiki) (path : Text)
      (paths : List Text)
      → pages.0 ≡ path ∷ paths
      → let run = tag_resolved load dump topics pages wiki in
        AreThere run.wiki.topics_file topics × Extends wiki.topics_file run.wiki.topics_file
  unfolding tag_resolved
  tag_resolved-full topics ([], missing) wiki path paths e = absurd (cc e)
  tag_resolved-full topics (first ∷ rest, missing) wiki path paths e =
      let file = ensure_topics topics wiki.topics_file in
      (
        rw (finish_tag-file file _ missing wiki _) (ensure_topics-AreThere topics wiki.topics_file),
        rw (finish_tag-file file _ missing wiki _) (ensure_topics-Extends topics wiki.topics_file),
      )

  tag_requested-IsTagged :
      (find_page : Text → Option Text) (topics : List Text) (source : PageSource)
      (pages : RequestedPages) (wiki : Wiki)
      → topics ≢ []
      → requested_pages source ≡ pages
      → IsTagged find_page topics source wiki (tag_requested load dump find_page topics pages wiki)
  unfolding tag_requested IsKnown
  tag_requested-IsTagged find_page topics source (refused reply) wiki some_topic e =
      inl (inr (λ (pages, f, page, i, path, g). cc (e, f)), refl, refused-fails source reply e)
  tag_requested-IsTagged find_page topics source (requested pages) wiki some_topic e =
      elim (resolve_pages-cases find_page pages) [
        | inl (none_found, unknown) ↦
            let (unchanged, failed) =
              tag_resolved-empty topics (resolve_pages find_page pages) wiki none_found in
            inl (
              inr (λ (others, f, page, i, path, g).
                  let same : others ≡ pages = cc (e, f) in
                  unknown (subst (IsKnown find_page) same (page, i, path, g))),
              unchanged,
              failed,
            )
        | inr (path, paths, found, (page, i, at, g)) ↦
            let (there, extends) =
              tag_resolved-full topics (resolve_pages find_page pages) wiki path paths found in
            inr (some_topic, (pages, e, page, i, at, g), there, extends)
      ]

  tag_topics-IsTagged :
      (find_page : Text → Option Text) (topics : List Text) (source : PageSource) (wiki : Wiki)
      → IsTagged find_page topics source wiki (tag_topics load dump find_page topics source wiki)
  unfolding tag_topics tag_exit_code
  tag_topics-IsTagged find_page [] source wiki = inl (inl refl, refl, refl)
  tag_topics-IsTagged find_page (t ∷ topics) source wiki =
      tag_requested-IsTagged find_page (t ∷ topics) source (requested_pages source) wiki (λ e. cc e)
        refl

-- If no topic is left of the requested ones, or none of the requested pages is in the database,
-- `tag` changes nothing, neither a page nor topics.yaml, and fails. Otherwise every requested topic
-- has an entry in topics.yaml afterwards, and every slug that had an entry still finds the same one.
pub run_tag-IsTagged :
    (load : Text → FlowValue) (dump : Text → Text) (find_page : Text → Option Text)
    (topics : List Text) (source : PageSource) (wiki : Wiki)
    → IsTagged find_page
        (filled (map to_kebab_case topics))
        source
        wiki
        (run_tag load dump find_page topics source wiki)
unfolding run_tag
run_tag-IsTagged load dump find_page topics source wiki =
    tag_topics-IsTagged load dump find_page (filled (map to_kebab_case topics)) source wiki
