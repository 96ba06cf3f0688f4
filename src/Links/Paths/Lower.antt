-- ===== src/Links/Paths/Lower.antt =====
-- Lower case and the shape of a path (wiki/indexer/paths.ts).
use mathlib.Core.List.{append-nil}
use codealmanac.Prelude.{
  ℕ, Bool, true, false, ◌||◌, ◌≡◌, refl, sym, ◌∙◌, inl, inr, [], ◌∷◌, ◌++◌, Text, ◌==◌, Bool-cases,
  arith, is_empty, to_lower, LowerAt, lower_from, to_lower_char, subst, leb, All, ◌||◌, ◌⊎◌,
}
use codealmanac.Links.Paths.{starts_with, normalize_shape, normalize_path, ends_with_slash}
use codealmanac.Links.Paths.Laws.{
  IsCanonical, normalize_shape-IsCanonical, has_double_slash, has_backslash,
}

filled_start : (p s : Text) → is_empty p ≡ false → is_empty (p ++ s) ≡ false
filled_start [] s h = absurd (cc h)
filled_start (c ∷ p) s h = refl

-- What the Unicode tables say: an ASCII character has the lower case of ASCII, and that of another
-- character is not empty and has no slash and no backslash.
pub record IsLowering (lower_at : LowerAt) : Type 0 where
  pub ascii :
      (before after : Text) (c : ℕ) → leb c 127 ≡ true → lower_at before c after ≡ to_lower_char c
  pub beyond :
      (before after : Text) (c : ℕ)
      → leb c 127 ≡ false
      → (is_empty (lower_at before c after) ≡ false)
        × All (λ d. ((d == b'/') ≡ false) × ((d == b'\\') ≡ false)) (lower_at before c after)

-- Not empty, and without slashes and backslashes.
abbrev IsInner : Text → Type 0
IsInner p = (is_empty p ≡ false) × All (λ d. ((d == b'/') ≡ false) × ((d == b'\\') ≡ false)) p

has_backslash-inner :
    (p s : Text)
    → All (λ d. ((d == b'/') ≡ false) × ((d == b'\\') ≡ false)) p
    → has_backslash (p ++ s) ≡ has_backslash s
has_backslash-inner [] s h = refl
has_backslash-inner (c ∷ p) s ((_, b), h) = ground (arith, has_backslash-inner p s h)

starts-inner : (p s : Text) → IsInner p → starts_with b'/' (p ++ s) ≡ false
starts-inner [] s (full, h) = absurd (cc full)
starts-inner (c ∷ p) s (full, ((slash, _), h)) = slash

has_double_slash-inner :
    (p s : Text)
    → All (λ d. ((d == b'/') ≡ false) × ((d == b'\\') ≡ false)) p
    → has_double_slash (p ++ s) ≡ has_double_slash s
has_double_slash-inner [] s h = refl
has_double_slash-inner (c ∷ p) s ((slash, _), h) = ground (arith, has_double_slash-inner p s h)

ends-inner : (p : Text) → IsInner p → ends_with_slash p ≡ false
ends-inner [] (full, h) = absurd (cc full)
ends-inner (c ∷ []) (full, ((slash, _), h)) = slash
ends-inner (c ∷ d ∷ p) (full, (_, h)) = ends-inner (d ∷ p) (refl, h)

ends_with_slash-behind :
    (c : ℕ) (s : Text) → is_empty s ≡ false → ends_with_slash (c ∷ s) ≡ ends_with_slash s
ends_with_slash-behind c [] h = cc h
ends_with_slash-behind c (d ∷ s) h = refl

append-full : (p s : Text) → is_empty s ≡ false → is_empty (p ++ s) ≡ false
append-full [] s h = h
append-full (c ∷ p) s h = refl

ends_with_slash-append :
    (p s : Text) → is_empty s ≡ false → ends_with_slash (p ++ s) ≡ ends_with_slash s
ends_with_slash-append [] s h = refl
ends_with_slash-append (c ∷ p) s h =
    ends_with_slash-behind c (p ++ s) (append-full p s h) ∙ ends_with_slash-append p s h

module _ (lower_at : LowerAt) (lowers : IsLowering lower_at) where
  -- A slash or a backslash is left as it is, and another character does not become one.
  lower_at-cases :
      (before after : Text) (c : ℕ)
      → (((c == b'/' || c == b'\\') ≡ true) × (lower_at before c after ≡ c ∷ []))
        ⊎ (((c == b'/') ≡ false) × ((c == b'\\') ≡ false) × IsInner (lower_at before c after))
  lower_at-cases before after c = elim (Bool-cases (leb c 127)) [
    | inr beyond ↦ inr (ground arith, ground arith, lowers.beyond before after c beyond)
    | inl ascii ↦ elim (Bool-cases (c == b'/' || c == b'\\')) [
      | inl slash ↦ inl (slash, lowers.ascii before after c ascii ∙ ground arith)
      | inr inner ↦ inr (
        ground arith,
        ground arith,
        subst IsInner (sym (lowers.ascii before after c ascii)) (ground arith),
      )
    ]
  ]

  lower-full : (before s : Text) (c : ℕ) → is_empty (lower_from lower_at before (c ∷ s)) ≡ false
  lower-full before s c = elim (lower_at-cases before s c) [
    | inl (_, e) ↦ rw e refl
    | inr (_, _, (full, _)) ↦ filled_start (lower_at before c s) _ full
  ]

  lower-no_backslash :
      (before s : Text)
      → has_backslash s ≡ false
      → has_backslash (lower_from lower_at before s) ≡ false
  lower-no_backslash before [] h = refl
  lower-no_backslash before (c ∷ s) h =
      let rest = lower_from lower_at (before ++ c ∷ []) s in
      let quiet : has_backslash rest ≡ false =
        lower-no_backslash (before ++ c ∷ []) s (ground arith) in
      elim (lower_at-cases before s c) [
        | inl (_, e) ↦ rw e (ground arith)
        | inr (_, _, (_, inner)) ↦ has_backslash-inner (lower_at before c s) rest inner ∙ quiet
      ]

  lower-starts :
      (before s : Text) → starts_with b'/' (lower_from lower_at before s) ≡ starts_with b'/' s
  lower-starts before [] = refl
  lower-starts before (c ∷ s) = elim (lower_at-cases before s c) [
    | inl (_, e) ↦ rw e refl
    | inr (slash, _, inner) ↦ starts-inner (lower_at before c s) _ inner ∙ sym slash
  ]

  lower-no_double :
      (before s : Text)
      → has_double_slash s ≡ false
      → has_double_slash (lower_from lower_at before s) ≡ false
  lower-no_double before [] h = refl
  lower-no_double before (c ∷ s) h =
      let rest = lower_from lower_at (before ++ c ∷ []) s in
      let quiet : has_double_slash rest ≡ false =
        lower-no_double (before ++ c ∷ []) s (ground arith) in
      elim (lower_at-cases before s c) [
        | inl (_, e) ↦ rw e (ground (arith, lower-starts (before ++ c ∷ []) s))
        | inr (_, _, (_, inner)) ↦ has_double_slash-inner (lower_at before c s) rest inner ∙ quiet
      ]

  lower-ends :
      (before s : Text) → ends_with_slash (lower_from lower_at before s) ≡ ends_with_slash s
  lower-ends before [] = refl
  lower-ends before (c ∷ []) =
      rw (append-nil (lower_at before c [])) (elim (lower_at-cases before [] c) [
        | inl (_, e) ↦ rw e refl
        | inr (slash, _, inner) ↦ ends-inner (lower_at before c []) inner ∙ sym slash
      ])
  lower-ends before (c ∷ d ∷ s) =
      ends_with_slash-append (lower_at before c (d ∷ s))
        (lower_from lower_at (before ++ c ∷ []) (d ∷ s)) (lower-full (before ++ c ∷ []) s d)
      ∙ lower-ends (before ++ c ∷ []) (d ∷ s)

  pub normalize_path-IsCanonical :
      (raw : Text) (is_dir : Bool) → IsCanonical is_dir (normalize_path lower_at raw is_dir)
  unfolding normalize_path to_lower
  normalize_path-IsCanonical raw is_dir =
      let shape = normalize_shape-IsCanonical raw is_dir in
      record {
        no_backslash = lower-no_backslash [] (normalize_shape raw is_dir) shape.no_backslash;
        no_double_slash = lower-no_double [] (normalize_shape raw is_dir) shape.no_double_slash;
        marked = lower-ends [] (normalize_shape raw is_dir) ∙ shape.marked;
      }
