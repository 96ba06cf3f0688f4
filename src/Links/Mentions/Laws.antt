-- ===== src/Links/Mentions/Laws.antt =====
-- Which references mention a file (wiki/query/file-mentions.ts).
use mathlib.Core.List.{append_assoc}
use codealmanac.Prelude.{
  LowerAt, ℕ, Bool, true, false, ◌&&◌, ◌||◌, ◌≡◌, ◌↔◌, refl, sym, ap, ◌∙◌, ◌⊎◌, inl, inr, [], ◌∷◌,
  ◌++◌, Text, ◌==◌, ==_iff, Bool-cases, arith, same, same_iff, contains, contains_iff, In,
}
use codealmanac.Links.Paths.{normalize_path, looks_like_dir}
use codealmanac.Links.Mentions.{
  folder_prefixes, parent_folder_prefixes, FileRef, build_file_mention_filter, is_mentioned,
}

-- `q` is what stands before some slash of `s`, with the slash, behind `before`.
abbrev EndsAtSlash : Text → Text → Text → Type 0
EndsAtSlash s before q =
    (u : Text) × (t : Text) × (s ≡ u ++ b'/' ∷ t) × (q ≡ before ++ (u ++ b'/' ∷ []))

longer :
    (c : ℕ) (s before q : Text) → EndsAtSlash s (before ++ c ∷ []) q → EndsAtSlash (c ∷ s) before q
longer c s before q (u, t, e, f) =
    (c ∷ u, t, ap (λ x. c ∷ x) e, f ∙ append_assoc before (c ∷ []) (u ++ b'/' ∷ []))

folder_prefixes-In : (s before q : Text) → In q (folder_prefixes s before) → EndsAtSlash s before q
unfolding folder_prefixes
folder_prefixes-In [] before q i = absurd i
folder_prefixes-In (c ∷ s) before q i = elim (Bool-cases (c == b'/')) [
  | inr other ↦ longer c s before q (folder_prefixes-In s (before ++ c ∷ []) q (rw other at i))
  | inl slash ↦
      let e : c ≡ b'/' = (==_iff c b'/').0 slash in
      let j : In q ((before ++ c ∷ []) ∷ folder_prefixes s (before ++ c ∷ [])) = rw slash at i in
      elim j [
        | inl k ↦ ([], s, ap (λ x. x ∷ s) e, k ∙ ap (λ x. before ++ x ∷ []) e)
        | inr k ↦ longer c s before q (folder_prefixes-In s (before ++ c ∷ []) q k)
      ]
]

In-folder_prefixes :
    (u t before : Text) → In (before ++ (u ++ b'/' ∷ [])) (folder_prefixes (u ++ b'/' ∷ t) before)
unfolding folder_prefixes
In-folder_prefixes [] t before = inl refl
In-folder_prefixes (c ∷ u) t before =
    let i : In (before ++ (c ∷ (u ++ b'/' ∷ [])))
        (folder_prefixes (u ++ b'/' ∷ t) (before ++ c ∷ [])) =
      rw (← append_assoc before (c ∷ []) (u ++ b'/' ∷ []))
        (In-folder_prefixes u t (before ++ c ∷ [])) in
    elim (Bool-cases (c == b'/')) [ inl slash ↦ rw slash (inr i) | inr other ↦ rw other i ]

abbrev pub Mentions : Text → FileRef → Type 0
Mentions path r =
    (r.path ≡ path)
    ⊎ ((r.is_dir ≡ true)
        × ((u : Text) × (t : Text) × (path ≡ u ++ b'/' ∷ t) × (r.path ≡ u ++ b'/' ∷ [])))

-- The condition for a file.
file_test : Text → FileRef → Bool
file_test path r = same r.path path || (r.is_dir && contains r.path (parent_folder_prefixes path))

file_test_sound : (path : Text) (r : FileRef) → file_test path r ≡ true → Mentions path r
unfolding file_test parent_folder_prefixes
file_test_sound path r h = elim (Bool-cases (same r.path path)) [
  | inl own ↦ inl ((same_iff r.path path).0 own)
  | inr other ↦
      let dir : r.is_dir ≡ true = ground (arith, other) in
      let listed : contains r.path (folder_prefixes path []) ≡ true = ground (arith, other) in
      inr (
        dir,
        folder_prefixes-In path [] r.path
            ((contains_iff r.path (folder_prefixes path [])).0 listed),
      )
]

file_test_complete : (path : Text) (r : FileRef) → Mentions path r → file_test path r ≡ true
unfolding file_test parent_folder_prefixes
file_test_complete path r (inl e) = ground (arith, same_iff r.path path)
file_test_complete path r (inr (dir, (u, t, e, f))) =
    let i : In r.path (folder_prefixes path []) = rw (f, e) (In-folder_prefixes u t []) in
    ground (arith, contains_iff r.path (folder_prefixes path []))

is_mentioned_file :
    (lower_at : LowerAt) (glob : Text → Text → Bool) (input : Text) (r : FileRef)
    → looks_like_dir input ≡ false
    → is_mentioned glob (build_file_mention_filter lower_at input) r
      ≡ file_test (normalize_path lower_at input false) r
unfolding is_mentioned build_file_mention_filter file_test
is_mentioned_file lower_at glob input r file = rw file refl

-- For a query that is not a folder, a reference is found exactly when it is the file's path, or a
-- folder that the path goes through.
pub is_mentioned_iff :
    (lower_at : LowerAt) (glob : Text → Text → Bool) (input : Text) (r : FileRef)
    → looks_like_dir input ≡ false
    → (is_mentioned glob (build_file_mention_filter lower_at input) r ≡ true)
      ↔ Mentions (normalize_path lower_at input false) r
is_mentioned_iff lower_at glob input r file =
    let e = is_mentioned_file lower_at glob input r file in
    (
      λ h. file_test_sound (normalize_path lower_at input false) r (sym e ∙ h),
      λ h. e ∙ file_test_complete (normalize_path lower_at input false) r h,
    )
