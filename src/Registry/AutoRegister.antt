-- ===== src/Registry/AutoRegister.antt =====
-- Registering the repository of the current directory (wiki/registry/autoregister.ts).
pub mod Laws
use codealmanac.Prelude.{
  LowerAt, Bool, true, false, ◌||◌, Option, none, some, List, [], ◌∷◌, map, Text, same,
  if◌then◌else◌, is_empty,
}
use codealmanac.Slug.{to_kebab_case}
use codealmanac.Review.Item.{first_free}
use codealmanac.Registry.{RegistryEntry, paths_equal, add_entry}

abbrev pub names_of : List RegistryEntry → List Text
names_of entries = map (λ e. e.name) entries

unfoldable pub first_with : (RegistryEntry → Bool) → List RegistryEntry → Option RegistryEntry
first_with p [] = none
first_with p (e ∷ rest) = let later = first_with p rest in if p e then some e else later

module _ (folds : Option LowerAt) where
  abbrev pub is_free : Option RegistryEntry → Text → Bool
  is_free none repo_path = true
  is_free (some owner) repo_path = paths_equal folds owner.path repo_path

  -- The suffixes from 2 to 1001.
  unfoldable pub resolve_name_collision : List RegistryEntry → Text → Text → Option Text
  unfolding first_with
  resolve_name_collision entries base_name repo_path =
      let numbered = first_free base_name (names_of entries) 1000 2 in
      if is_free (first_with (λ e. same e.name base_name) entries) repo_path
      then some base_name
      else numbered

  abbrev pub named_entry : Text → Text → Text → RegistryEntry
  named_entry name repo_root now = record {
    name = name;
    description = [];
    path = repo_root;
    registered_at = now;
  }

  unfoldable pub register_as :
      Option Text → Text → Text → List RegistryEntry → Option RegistryEntry × List RegistryEntry
  register_as none repo_root now entries = (none, entries)
  register_as (some name) repo_root now entries = (
    some (named_entry name repo_root now),
    add_entry folds (named_entry name repo_root now) entries,
  )

  unfoldable pub register_unless_found :
      Option RegistryEntry
      → Text
      → Text
      → Text
      → List RegistryEntry
      → Option RegistryEntry × List RegistryEntry
  unfolding resolve_name_collision register_as
  register_unless_found (some existing) repo_root name now entries = (some existing, entries)
  register_unless_found none repo_root name now entries =
      if is_empty name
      then (none, entries)
      else register_as (resolve_name_collision entries name repo_root) repo_root now entries

  -- `basename` is that of `repo_root`, the nearest directory with a wiki.
  unfoldable pub auto_register :
      Text → Text → Text → List RegistryEntry → Option RegistryEntry × List RegistryEntry
  unfolding register_unless_found first_with
  auto_register repo_root basename now entries =
      register_unless_found (first_with (λ e. paths_equal folds e.path repo_root) entries) repo_root
        (to_kebab_case basename) now entries
