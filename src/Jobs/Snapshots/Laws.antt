-- ===== src/Jobs/Snapshots/Laws.antt =====
-- When two snapshots do not differ (jobs/snapshots.ts).
use codealmanac.Prelude.{
  Bool, true, false, ◌&&◌, ◌≡◌, ◌↔◌, refl, subst, sym, ap, ◌∙◌, inl, inr, Option, none, some, List,
  [], ◌∷◌, Text, same_iff, Option-cases, arith, In, NoRepeats, get_key, get_key-In, get_key_of_In,
  keys_of,
}
use codealmanac.Jobs.Snapshots.{
  PageSnapshotEntry, PageSnapshot, PageSnapshotDelta, insert_text, sort_texts, Change, kept,
  is_created, is_updated, is_archived, change_of, push_change, changes_in, deleted_from,
  diff_page_snapshots, no_texts, is_noop_page_delta,
}

abbrev pub hash_of : Option PageSnapshotEntry → Option Text
hash_of none = none
hash_of (some entry) = some entry.hash

insert_text-full : (a : Text) (list : List Text) → no_texts (insert_text a list) ≡ false
unfolding insert_text
insert_text-full a [] = refl
insert_text-full a (b ∷ list) = ground arith

no_texts-sort_texts : (list : List Text) → no_texts (sort_texts list) ≡ no_texts list
unfolding sort_texts
no_texts-sort_texts [] = refl
no_texts-sort_texts (a ∷ list) = insert_text-full a (sort_texts list)

-- Nothing created, updated or archived.
abbrev quiet : PageSnapshotDelta → Bool
quiet delta = no_texts delta.created && no_texts delta.updated && no_texts delta.archived

push_change-quiet :
    (change : Change) (slug : Text) (delta : PageSnapshotDelta)
    → quiet (push_change change slug delta) ≡ true
    → (change ≡ kept) × (quiet delta ≡ true)
push_change-quiet kept slug delta h = (refl, h)
push_change-quiet is_created slug delta h = absurd (cc h)
push_change-quiet is_updated slug delta h = ground arith
push_change-quiet is_archived slug delta h = ground arith

change_of_kept :
    (o : Option PageSnapshotEntry) (entry : PageSnapshotEntry)
    → change_of o entry ≡ kept
    → hash_of o ≡ some entry.hash
unfolding change_of
change_of_kept none entry h = absurd (cc h)
change_of_kept (some prev) entry h = ground (arith, same_iff prev.hash entry.hash)

kept_of_hash :
    (o : Option PageSnapshotEntry) (entry : PageSnapshotEntry)
    → hash_of o ≡ some entry.hash
    → change_of o entry ≡ kept
unfolding change_of
kept_of_hash none entry h = absurd (cc h)
kept_of_hash (some prev) entry h = ground (arith, same_iff prev.hash entry.hash)

changes_in-quiet :
    (before after : PageSnapshot) (slug : Text) (entry : PageSnapshotEntry)
    → quiet (changes_in before after) ≡ true
    → In (slug, entry) after
    → hash_of (get_key slug before) ≡ some entry.hash
unfolding changes_in
changes_in-quiet before [] slug entry h i = absurd i
changes_in-quiet before ((k, e) ∷ after) slug entry h i =
    let (same_hash, rest) =
      push_change-quiet (change_of (get_key k before) e) k (changes_in before after) h in
    elim i [
      | inl here ↦
          subst (λ x. hash_of (get_key x.0 before) ≡ some x.1.hash) (sym here)
            (change_of_kept (get_key k before) e same_hash)
      | inr later ↦ changes_in-quiet before after slug entry rest later
    ]

quiet-changes_in :
    (before after : PageSnapshot)
    → ((slug : Text) (entry : PageSnapshotEntry)
        → In (slug, entry) after
        → hash_of (get_key slug before) ≡ some entry.hash)
    → quiet (changes_in before after) ≡ true
unfolding changes_in
quiet-changes_in before [] h = refl
quiet-changes_in before ((k, e) ∷ after) h =
    rw (kept_of_hash (get_key k before) e (h k e (inl refl)))
      (quiet-changes_in before after (λ slug entry i. h slug entry (inr i)))

deleted_from-none :
    (after before : PageSnapshot) (slug : Text) (entry : PageSnapshotEntry)
    → no_texts (deleted_from after before) ≡ true
    → In (slug, entry) before
    → get_key slug after ≡ none
    → ⊥
unfolding deleted_from
deleted_from-none after [] slug entry h i e = i
deleted_from-none after ((k, x) ∷ before) slug entry h i e = elim (Option-cases (get_key k after)) [
  | inl gone ↦ absurd (cc (rw gone at h))
  | inr (y, there) ↦ elim i [
    | inl here ↦ absurd (cc (there, e, ap (λ z. z.0) here))
    | inr later ↦ deleted_from-none after before slug entry (rw there at h) later e
  ]
]

none-deleted_from :
    (after before : PageSnapshot)
    → ((slug : Text) (entry : PageSnapshotEntry)
        → In (slug, entry) before
        → ¬ (get_key slug after ≡ none))
    → no_texts (deleted_from after before) ≡ true
unfolding deleted_from
none-deleted_from after [] h = refl
none-deleted_from after ((k, x) ∷ before) h = elim (Option-cases (get_key k after)) [
  | inl gone ↦ absurd (h k x (inl refl) gone)
  | inr (y, there) ↦
      rw there (none-deleted_from after before (λ slug entry i. h slug entry (inr i)))
]

is_noop-eq :
    (before after : PageSnapshot)
    → is_noop_page_delta (diff_page_snapshots before after)
      ≡ (quiet (changes_in before after) && no_texts (deleted_from after before))
unfolding is_noop_page_delta diff_page_snapshots
is_noop-eq before after =
    rw
      (
        no_texts-sort_texts (changes_in before after).created,
        no_texts-sort_texts (changes_in before after).updated,
        no_texts-sort_texts (changes_in before after).archived,
        no_texts-sort_texts (deleted_from after before),
      )
      (ground arith)

noop_hashes :
    (before after : PageSnapshot)
    → quiet (changes_in before after) ≡ true
    → no_texts (deleted_from after before) ≡ true
    → (slug : Text) → hash_of (get_key slug before) ≡ hash_of (get_key slug after)
noop_hashes before after calm whole slug = elim (Option-cases (get_key slug after)) [
  | inr (entry, e) ↦
      changes_in-quiet before after slug entry calm (get_key-In slug entry after e)
      ∙ sym (ap hash_of e)
  | inl gone ↦ elim (Option-cases (get_key slug before)) [
    | inl e ↦ ap hash_of (e ∙ sym gone)
    | inr (entry, e) ↦
        absurd
          (deleted_from-none after before slug entry whole (get_key-In slug entry before e) gone)
  ]
]

hashes_noop :
    (before after : PageSnapshot)
    → NoRepeats (keys_of before)
    → NoRepeats (keys_of after)
    → ((slug : Text) → hash_of (get_key slug before) ≡ hash_of (get_key slug after))
    → (quiet (changes_in before after) ≡ true) × (no_texts (deleted_from after before) ≡ true)
hashes_noop before after unique unique' h = (
  quiet-changes_in before after
      (λ slug entry i. h slug ∙ ap hash_of (get_key_of_In slug entry after unique' i)),
  none-deleted_from after before (λ slug entry i gone.
      cc (h slug, ap hash_of gone, ap hash_of (get_key_of_In slug entry before unique i))),
)

-- With each slug once in either snapshot, their comparison finds nothing exactly when each slug has
-- the same hash in both, or is in neither.
pub is_noop-diff_page_snapshots :
    (before after : PageSnapshot)
    → NoRepeats (keys_of before)
    → NoRepeats (keys_of after)
    → (is_noop_page_delta (diff_page_snapshots before after) ≡ true)
      ↔ ((slug : Text) → hash_of (get_key slug before) ≡ hash_of (get_key slug after))
is_noop-diff_page_snapshots before after unique unique' =
    let e = is_noop-eq before after in
    (
      λ h slug.
          (let both : (quiet (changes_in before after) && no_texts (deleted_from after before))
                ≡ true =
              sym e ∙ h in
            noop_hashes before after (ground (arith, both)) (ground (arith, both)) slug),
      λ h.
          (let (calm, whole) = hashes_noop before after unique unique' h in
            e ∙ rw (calm, whole) refl),
    )
