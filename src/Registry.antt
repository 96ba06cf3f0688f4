-- ===== src/Registry.antt =====
-- The registry of wikis (wiki/registry/store.ts).
pub mod Laws
pub mod AutoRegister
pub mod Disk
mod Tests
use codealmanac.Prelude.{
  Bool, true, false, not, ◌&&◌, Option, none, some, List, [], ◌∷◌, ◌++◌, keep, Text, same, to_lower,
  LowerAt, if◌then◌else◌,
}

pub record RegistryEntry : Type 0 where
  pub name : Text
  pub description : Text
  pub path : Text
  pub registered_at : Text

-- On macOS and Windows the paths are compared in lower case.
unfoldable pub paths_equal : Option LowerAt → Text → Text → Bool
unfolding to_lower
paths_equal none a b = same a b
paths_equal (some lower_at) a b = same (to_lower lower_at a) (to_lower lower_at b)

module _ (folds : Option LowerAt) where
  -- Another name and another path.
  abbrev pub is_apart : RegistryEntry → RegistryEntry → Bool
  is_apart e entry = not (same e.name entry.name) && not (paths_equal folds e.path entry.path)

  unfoldable pub add_entry : RegistryEntry → List RegistryEntry → List RegistryEntry
  add_entry entry existing = keep (λ e. is_apart e entry) existing ++ entry ∷ []

  -- The entry that is removed, and the others.
  unfoldable pub drop_entry : Text → List RegistryEntry → Option RegistryEntry × List RegistryEntry
  drop_entry name [] = (none, [])
  drop_entry name (e ∷ rest) =
      let (removed, others) = drop_entry name rest in
      if same e.name name then (some e, rest) else (removed, e ∷ others)

  abbrev matches_name : Option Text → RegistryEntry → Bool
  matches_name none e = false
  matches_name (some name) e = same e.name name

  abbrev matches_path : Option Text → RegistryEntry → Bool
  matches_path none e = false
  matches_path (some path) e = paths_equal folds e.path path

  unfoldable pub find_entry : Option Text → Option Text → List RegistryEntry → Option RegistryEntry
  find_entry name path [] = none
  find_entry name path (e ∷ rest) =
      let later = find_entry name path rest in
      if matches_name name e then some e else if matches_path path e then some e else later
