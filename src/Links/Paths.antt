-- ===== src/Links/Paths.antt =====
-- Paths as they are stored and looked up (wiki/indexer/paths.ts).
pub mod Laws
pub mod Lower
use codealmanac.Prelude.{
  ℕ, Bool, true, false, ◌&&◌, List, [], ◌∷◌, ◌++◌, Text, ◌==◌, if◌then◌else◌, trim, drop_end,
  to_lower, LowerAt,
}

abbrev pub starts_with : ℕ → Text → Bool
starts_with q [] = false
starts_with q (c ∷ s) = c == q

-- Each run of `from` becomes one slash: `s.replace(/\\+/g, "/")` and `s.replace(/\/+/g, "/")`.
unfoldable pub slash_runs : ℕ → Text → Text
slash_runs from [] = []
slash_runs from (c ∷ s) =
    let rest = slash_runs from s in
    if c == from then (if starts_with from s then rest else b'/' ∷ rest) else c ∷ rest

-- `while (s.startsWith("./")) s = s.slice(2)`
unfoldable pub strip_dots : Text → Text
strip_dots [] = []
strip_dots (c ∷ []) = c ∷ []
strip_dots (c ∷ d ∷ s) =
    let rest = strip_dots s in if c == b'.' && d == b'/' then rest else c ∷ d ∷ s

abbrev pub is_slash : ℕ → Bool
is_slash c = c == b'/'

unfoldable pub normalize_shape : Text → Bool → Text
unfolding trim slash_runs strip_dots
normalize_shape raw is_dir =
    let s = drop_end is_slash (slash_runs b'/' (strip_dots (slash_runs b'\\' (trim raw)))) in
    if is_dir then s ++ b'/' ∷ [] else s

unfoldable pub normalize_path_preserving_case : Text → Bool → Text
unfolding normalize_shape
normalize_path_preserving_case raw is_dir = normalize_shape raw is_dir

unfoldable pub normalize_path : LowerAt → Text → Bool → Text
unfolding normalize_shape to_lower
normalize_path lower_at raw is_dir = to_lower lower_at (normalize_shape raw is_dir)

-- `s.endsWith("/")`
abbrev pub ends_with_slash : Text → Bool
ends_with_slash [] = false
ends_with_slash (c ∷ []) = c == b'/'
ends_with_slash (c ∷ d ∷ s) = ends_with_slash (d ∷ s)

unfoldable pub looks_like_dir : Text → Bool
unfolding trim slash_runs
looks_like_dir raw = ends_with_slash (slash_runs b'\\' (trim raw))
