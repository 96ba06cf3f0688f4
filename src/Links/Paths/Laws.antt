-- ===== src/Links/Paths/Laws.antt =====
-- The shape of stored paths (wiki/indexer/paths.ts).
use codealmanac.Prelude.{
  ℕ, Bool, true, false, ◌&&◌, ◌||◌, ◌≡◌, refl, sym, inl, inr, [], ◌∷◌, ◌++◌, Text, ◌==◌, Bool-cases,
  arith, trim, drop_end, put_unless, ◌||◌,
}
use codealmanac.Links.Paths.{
  starts_with, slash_runs, strip_dots, is_slash, normalize_shape, ends_with_slash,
}

abbrev pub has_backslash : Text → Bool
has_backslash [] = false
has_backslash (c ∷ s) = c == b'\\' || has_backslash s

abbrev pub has_double_slash : Text → Bool
has_double_slash [] = false
has_double_slash (c ∷ s) = (c == b'/' && starts_with b'/' s) || has_double_slash s

-- No backslash, no empty part, and a slash at the end for directories only.
pub record IsCanonical (is_dir : Bool) (path : Text) : Type 0 where
  pub no_backslash : has_backslash path ≡ false
  pub no_double_slash : has_double_slash path ≡ false
  pub marked : ends_with_slash path ≡ is_dir

slash_runs-no_backslash : (s : Text) → has_backslash (slash_runs b'\\' s) ≡ false
unfolding slash_runs
slash_runs-no_backslash [] = refl
slash_runs-no_backslash (c ∷ s) = ground (arith, slash_runs-no_backslash s)

slash_runs-keeps : (s : Text) → has_backslash s ≡ false → has_backslash (slash_runs b'/' s) ≡ false
unfolding slash_runs
slash_runs-keeps [] h = refl
slash_runs-keeps (c ∷ s) h = ground (arith, slash_runs-keeps s)

strip_dots-keeps : (s : Text) → has_backslash s ≡ false → has_backslash (strip_dots s) ≡ false
unfolding strip_dots
strip_dots-keeps [] h = refl
strip_dots-keeps (c ∷ []) h = h
strip_dots-keeps (c ∷ d ∷ s) h = ground (arith, strip_dots-keeps s)

put_unless-no_backslash :
    (b : Bool) (c : ℕ) (s : Text)
    → (c == b'\\') ≡ false
    → has_backslash s ≡ false
    → has_backslash (put_unless b c s) ≡ false
put_unless-no_backslash true c [] h k = refl
put_unless-no_backslash false c [] h k = rw h refl
put_unless-no_backslash true c (d ∷ s) h k = rw (h, k) refl
put_unless-no_backslash false c (d ∷ s) h k = rw (h, k) refl

drop_end-no_backslash :
    (s : Text) → has_backslash s ≡ false → has_backslash (drop_end is_slash s) ≡ false
drop_end-no_backslash [] h = refl
drop_end-no_backslash (c ∷ s) h =
    put_unless-no_backslash (is_slash c) c (drop_end is_slash s) (ground arith)
      (drop_end-no_backslash s (ground arith))

slash_runs-starts : (s : Text) → starts_with b'/' (slash_runs b'/' s) ≡ starts_with b'/' s
unfolding slash_runs
slash_runs-starts [] = refl
slash_runs-starts (c ∷ s) = ground (arith, slash_runs-starts s)

slash_runs-no_double : (s : Text) → has_double_slash (slash_runs b'/' s) ≡ false
unfolding slash_runs
slash_runs-no_double [] = refl
slash_runs-no_double (c ∷ s) = ground (arith, slash_runs-no_double s, slash_runs-starts s)

put_unless-starts :
    (b : Bool) (c : ℕ) (s : Text)
    → (c == b'/') ≡ false
    → starts_with b'/' (put_unless b c s) ≡ false
put_unless-starts true c [] h = refl
put_unless-starts false c [] h = h
put_unless-starts true c (d ∷ s) h = h
put_unless-starts false c (d ∷ s) h = h

drop_end-starts :
    (s : Text) → starts_with b'/' s ≡ false → starts_with b'/' (drop_end is_slash s) ≡ false
drop_end-starts [] h = refl
drop_end-starts (c ∷ s) h = put_unless-starts (is_slash c) c (drop_end is_slash s) h

-- A text without a double slash and without one at the end, behind one more character.
put_unless-shape :
    (b : Bool) (c : ℕ) (s : Text)
    → b ≡ is_slash c
    → has_double_slash s ≡ false
    → ends_with_slash s ≡ false
    → (c == b'/' && starts_with b'/' s) ≡ false
    → (has_double_slash (put_unless b c s) ≡ false) × (ends_with_slash (put_unless b c s) ≡ false)
put_unless-shape true c [] e h k l = (refl, refl)
put_unless-shape false c [] e h k l = (ground arith, sym e)
put_unless-shape true c (d ∷ s) e h k l = (rw (l, h) refl, k)
put_unless-shape false c (d ∷ s) e h k l = (rw (l, h) refl, k)

-- Without the slashes at the end there is still no double one, and none at the end.
drop_end-shape :
    (s : Text)
    → has_double_slash s ≡ false
    → (has_double_slash (drop_end is_slash s) ≡ false)
      × (ends_with_slash (drop_end is_slash s) ≡ false)
drop_end-shape [] h = (refl, refl)
drop_end-shape (c ∷ s) h =
    let (double, last) = drop_end-shape s (ground arith) in
    put_unless-shape (is_slash c) c (drop_end is_slash s) refl double last
      (elim (Bool-cases (starts_with b'/' s)) [
        | inl slash ↦ ground arith
        | inr other ↦ ground (arith, drop_end-starts s other)
      ])

append_slash-shape :
    (s : Text)
    → has_double_slash s ≡ false
    → ends_with_slash s ≡ false
    → (has_double_slash (s ++ b'/' ∷ []) ≡ false) × (ends_with_slash (s ++ b'/' ∷ []) ≡ true)
append_slash-shape [] h k = (refl, refl)
append_slash-shape (c ∷ []) h k = (ground arith, refl)
append_slash-shape (c ∷ d ∷ s) h k =
    let (double, last) = append_slash-shape (d ∷ s) (ground arith) k in
    (ground (arith, double), last)

append_slash-no_backslash :
    (s : Text) → has_backslash s ≡ false → has_backslash (s ++ b'/' ∷ []) ≡ false
append_slash-no_backslash [] h = refl
append_slash-no_backslash (c ∷ s) h = ground (arith, append_slash-no_backslash s)

module _ (raw : Text) where
  -- Before the slashes at the end are dropped.
  abbrev cleaned : Text
  cleaned = slash_runs b'/' (strip_dots (slash_runs b'\\' (trim raw)))

  cleaned-no_backslash : has_backslash (drop_end is_slash cleaned) ≡ false
  cleaned-no_backslash = drop_end-no_backslash cleaned (
      slash_runs-keeps (strip_dots (slash_runs b'\\' (trim raw)))
        (strip_dots-keeps (slash_runs b'\\' (trim raw)) (slash_runs-no_backslash (trim raw))))

  cleaned-shape :
      (has_double_slash (drop_end is_slash cleaned) ≡ false)
      × (ends_with_slash (drop_end is_slash cleaned) ≡ false)
  cleaned-shape =
      drop_end-shape cleaned (slash_runs-no_double (strip_dots (slash_runs b'\\' (trim raw))))

  pub normalize_shape-IsCanonical :
      (is_dir : Bool) → IsCanonical is_dir (normalize_shape raw is_dir)
  unfolding normalize_shape
  normalize_shape-IsCanonical true =
      let (double, last) =
        append_slash-shape (drop_end is_slash cleaned) cleaned-shape.0 cleaned-shape.1 in
      record {
        no_backslash = append_slash-no_backslash (drop_end is_slash cleaned) cleaned-no_backslash;
        no_double_slash = double;
        marked = last;
      }
  normalize_shape-IsCanonical false = record {
    no_backslash = cleaned-no_backslash;
    no_double_slash = cleaned-shape.0;
    marked = cleaned-shape.1;
  }
