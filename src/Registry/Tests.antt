-- ===== src/Registry/Tests.antt =====
-- Registries of two repositories.
use codealmanac.Prelude.{
  LowerAt, to_lower_char, ℕ, ◌≤◌, Bool, true, false, ◌≡◌, refl, ◌⊎◌, Option, some, none, List, [],
  ◌∷◌, ◌++◌, Text, codes, contains, length, In, is_empty,
}
use codealmanac.Slug.{to_kebab_case}
use codealmanac.Registry.{RegistryEntry, paths_equal, add_entry, drop_entry}
use codealmanac.Registry.Laws.{IsUnique, by_name, assign, forget, registry-refines-map}
use codealmanac.Registry.AutoRegister.{names_of, auto_register}
use codealmanac.Registry.AutoRegister.Laws.{auto_register_lem}
use codealmanac.Registry.Disk.{ok, read_registry, write_registry}
use codealmanac.Registry.Disk.Reach.{nothing, added, registered, Reachable-IsUnique}

abbrev entry_at : Text → Text → RegistryEntry
entry_at name path = record {
  name = name;
  description = [];
  path = path;
  registered_at = codes "2026";
}

abbrev web : RegistryEntry
web = entry_at (codes "web") (codes "/src/web")

abbrev moved : RegistryEntry
moved = entry_at (codes "site") (codes "/SRC/web")

-- On macOS the second entry takes the place of the first, whose path it has.
abbrev folds : Option LowerAt
folds = some (λ before c after. to_lower_char c)

moved_replaces : add_entry folds moved (web ∷ []) ≡ moved ∷ []
unfolding add_entry codealmanac.Prelude.same paths_equal codealmanac.Prelude.to_lower
moved_replaces = refl

registry-refines-map_example :
    ((by_name folds (add_entry folds moved (web ∷ [])) (codes "web")
        ≡ assign folds moved (by_name folds (web ∷ [])) (codes "web"))
      × IsUnique folds (add_entry folds moved (web ∷ [])))
    × ((by_name folds (drop_entry folds moved.name (web ∷ [])).1 (codes "web")
          ≡ forget folds moved.name (by_name folds (web ∷ [])) (codes "web"))
        × ((drop_entry folds moved.name (web ∷ [])).0 ≡ by_name folds (web ∷ []) moved.name)
        × IsUnique folds (drop_entry folds moved.name (web ∷ [])).1)
registry-refines-map_example = registry-refines-map folds (web ∷ []) moved (codes "web") (tt, tt)

second_web :
    (auto_register none (codes "/other/web") (codes "web") (codes "2026") (web ∷ [])).1
    ≡ web ∷ entry_at (codes "web-2") (codes "/other/web") ∷ []
unfolding auto_register paths_equal codealmanac.Prelude.same to_kebab_case
    codealmanac.Review.Item.first_free contains add_entry codealmanac.Review.Item.Number.decimal
second_web = refl

auto_register_lem_example :
    ((e : RegistryEntry) × In e (web ∷ [])
      × (paths_equal none e.path (codes "/other/web") ≡ true)
      × (auto_register none (codes "/other/web") (codes "web") (codes "2026") (web ∷ [])
          ≡ (some e, web ∷ [])))
    ⊎ ((e : RegistryEntry) × (e.path ≡ codes "/other/web")
        × (contains e.name (names_of (web ∷ [])) ≡ false)
        × (auto_register none (codes "/other/web") (codes "web") (codes "2026") (web ∷ [])
            ≡ (some e, (web ∷ []) ++ e ∷ [])))
    ⊎ ((auto_register none (codes "/other/web") (codes "web") (codes "2026") (web ∷ [])
          ≡ (none, web ∷ []))
        × ((is_empty (to_kebab_case (codes "web")) ≡ true) ⊎ (1000 ≤ length (web ∷ []))))
auto_register_lem_example =
    auto_register_lem none (codes "/other/web") (codes "web") (codes "2026") (web ∷ [])

abbrev two_webs : List RegistryEntry
two_webs =
    (auto_register none (codes "/other/web") (codes "web") (codes "2026") (add_entry none web [])).1

Reachable-IsUnique_example :
    IsUnique none two_webs × (read_registry (write_registry two_webs) ≡ ok two_webs)
Reachable-IsUnique_example = Reachable-IsUnique none two_webs (
    registered (codes "/other/web") (codes "web") (codes "2026") (added web nothing (refl, refl))
      refl)
