-- ===== src/Links/Mentions.antt =====
-- The pages that mention a file (wiki/query/file-mentions.ts).
pub mod Laws
use codealmanac.Prelude.{
  ℕ, Bool, true, false, ◌&&◌, ◌||◌, List, [], ◌∷◌, ◌++◌, Text, codes, ◌==◌, if◌then◌else◌, same,
  contains, LowerAt,
}
use codealmanac.Links.Paths.{normalize_path, looks_like_dir}

pub record FileMentionFilter : Type 0 where
  pub is_dir : Bool
  pub normalized_path : Text
  pub glob_prefix : Text
  pub parent_folders : List Text

-- The slices that end at a slash; `before` is what has been passed.
unfoldable pub folder_prefixes : Text → Text → List Text
folder_prefixes [] before = []
folder_prefixes (c ∷ s) before =
    let rest = folder_prefixes s (before ++ c ∷ []) in
    if c == b'/' then (before ++ c ∷ []) ∷ rest else rest

unfoldable pub parent_folder_prefixes : Text → List Text
unfolding folder_prefixes
parent_folder_prefixes file_path = folder_prefixes file_path []

unfoldable pub escape_glob_meta : Text → Text
escape_glob_meta [] = []
escape_glob_meta (c ∷ s) =
    let rest = escape_glob_meta s in
    if c == b'*' || c == b'?' || c == b'[' then b'[' ∷ c ∷ b']' ∷ rest else c ∷ rest

unfoldable pub build_file_mention_filter : LowerAt → Text → FileMentionFilter
unfolding normalize_path looks_like_dir parent_folder_prefixes escape_glob_meta
build_file_mention_filter lower_at input =
    let is_dir = looks_like_dir input in
    let path = normalize_path lower_at input is_dir in
    record {
      is_dir = is_dir;
      normalized_path = path;
      glob_prefix = escape_glob_meta path ++ codes "*";
      parent_folders = if is_dir then [] else parent_folder_prefixes path;
    }

-- A row of `file_refs`.
pub record FileRef : Type 0 where
  pub path : Text
  pub is_dir : Bool

-- The condition of `appendFileMentionClause` on a row; `glob pattern text` is SQLite's GLOB.
module _ (glob : Text → Text → Bool) where
  unfoldable pub is_mentioned : FileMentionFilter → FileRef → Bool
  is_mentioned mention r =
      if mention.is_dir
      then same r.path mention.normalized_path || glob mention.glob_prefix r.path
      else same r.path mention.normalized_path
        || (r.is_dir && contains r.path mention.parent_folders)
