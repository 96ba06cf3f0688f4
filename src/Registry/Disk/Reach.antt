-- ===== src/Registry/Disk/Reach.antt =====
-- The registries that the program can write (wiki/registry/).
use codealmanac.Prelude.{
  LowerAt, Option, ℕ, zero, suc, false, ◌≡◌, refl, subst, sym, inl, inr, some, List, [], ◌∷◌, keep,
  Text, same, contains, All, All-append, is_empty, Bool-cases, Option-cases,
}
use codealmanac.Slug.{to_kebab_case}
use codealmanac.Review.Item.{first_free, numbered}
use codealmanac.Registry.{RegistryEntry, paths_equal, is_apart, add_entry, drop_entry}
use codealmanac.Registry.Laws.{
  IsUnique, add_entry-IsUnique, drop_entry-IsUnique, All-keep, All-drop_entry,
}
use codealmanac.Registry.AutoRegister.{
  names_of, first_with, is_free, resolve_name_collision, named_entry, register_as,
  register_unless_found, auto_register,
}
use codealmanac.Registry.Disk.{ok, read_entry, read_entries, read_registry, write_registry}

-- A name and a path that are not empty.
abbrev pub IsComplete : RegistryEntry → Type 0
IsComplete e = (is_empty e.name ≡ false) × (is_empty e.path ≡ false)

-- What adding, dropping and registering can make of no file.
pub data Reachable (folds : Option LowerAt) : List RegistryEntry → Type 0 where
  nothing : Reachable folds []
  added :
      {entries : List RegistryEntry} (entry : RegistryEntry)
      → Reachable folds entries
      → IsComplete entry
      → Reachable folds (add_entry folds entry entries)
  dropped :
      {entries : List RegistryEntry} (name : Text)
      → Reachable folds entries
      → Reachable folds (drop_entry folds name entries).1
  registered :
      {entries : List RegistryEntry} (repo_root basename now : Text)
      → Reachable folds entries
      → is_empty repo_root ≡ false
      → Reachable folds (auto_register folds repo_root basename now entries).1

read-write_registry :
    (entries : List RegistryEntry)
    → All IsComplete entries
    → read_registry (write_registry entries) ≡ ok entries
unfolding read_registry read_entries write_registry read_entry
read-write_registry [] h = refl
read-write_registry (e ∷ entries) ((name, path), h) =
    rw (name, path, read-write_registry entries h) refl

first_free-full :
    (base : Text) (xs : List Text) (fuel i : ℕ) (id : Text)
    → is_empty base ≡ false
    → first_free base xs fuel i ≡ some id
    → is_empty id ≡ false
unfolding first_free
first_free-full [] xs fuel i id full h = absurd (cc full)
first_free-full (c ∷ base) xs zero i id full h = absurd (cc h)
first_free-full (c ∷ base) xs (suc fuel) i id full h =
    elim (Bool-cases (contains (numbered (c ∷ base) i) xs)) [
      | inl taken ↦ first_free-full (c ∷ base) xs fuel (suc i) id full (rw taken at h)
      | inr free ↦
          let e : some (numbered (c ∷ base) i) ≡ some id = rw free at h in
          let f : numbered (c ∷ base) i ≡ id = cc e in rw (sym f) refl
    ]

module _ (folds : Option LowerAt) where
  add_entry-All :
      (entry : RegistryEntry) (entries : List RegistryEntry)
      → All IsComplete entries
      → IsComplete entry
      → All IsComplete (add_entry folds entry entries)
  unfolding add_entry
  add_entry-All entry entries h k =
      All-append IsComplete (keep (λ e. is_apart folds e entry) entries) (entry ∷ [])
        (All-keep folds IsComplete (λ e. is_apart folds e entry) entries h) (k, tt)

  -- Both parts of the invariant.
  abbrev IsWhole : List RegistryEntry → Type 0
  IsWhole entries = IsUnique folds entries × All IsComplete entries

  resolve_name_collision-full :
      (entries : List RegistryEntry) (base repo_path name : Text)
      → is_empty base ≡ false
      → resolve_name_collision folds entries base repo_path ≡ some name
      → is_empty name ≡ false
  unfolding resolve_name_collision
  resolve_name_collision-full entries base repo_path name full h =
      elim (Bool-cases (is_free folds (first_with (λ e. same e.name base) entries) repo_path)) [
        | inl free ↦
            let e : some base ≡ some name = rw free at h in
            subst (λ n. is_empty n ≡ false) (cc (e)) full
        | inr taken ↦ first_free-full base (names_of entries) 1000 2 name full (rw taken at h)
      ]

  auto_register-IsWhole :
      (repo_root basename now : Text) (entries : List RegistryEntry)
      → is_empty repo_root ≡ false
      → IsWhole entries
      → IsWhole (auto_register folds repo_root basename now entries).1
  unfolding auto_register register_unless_found register_as
  auto_register-IsWhole repo_root basename now entries full h =
      let name = to_kebab_case basename in
      elim (Option-cases (first_with (λ e. paths_equal folds e.path repo_root) entries)) [
        | inr (e, found) ↦ rw (found, register_unless_found) h
        | inl away ↦ elim (Bool-cases (is_empty name)) [
          | inl blank ↦ rw (away, register_unless_found, blank) h
          | inr named ↦ elim (Option-cases (resolve_name_collision folds entries name repo_root)) [
            | inl e ↦ rw (away, register_unless_found, named, e, register_as) h
            | inr (final, e) ↦
                let entry = named_entry folds final repo_root now in
                rw (away, register_unless_found, named, e, register_as)
                  (
                    add_entry-IsUnique folds entry entries h.0,
                    add_entry-All entry entries h.1
                        (resolve_name_collision-full entries name repo_root final named e, full),
                  )
          ]
        ]
      ]

  Reachable-IsWhole : (entries : List RegistryEntry) → Reachable folds entries → IsWhole entries
  Reachable-IsWhole _ nothing = (tt, tt)
  Reachable-IsWhole _ (added {entries} entry r complete) =
      let (unique, whole) = Reachable-IsWhole entries r in
      (add_entry-IsUnique folds entry entries unique, add_entry-All entry entries whole complete)
  Reachable-IsWhole _ (dropped {entries} name r) =
      let (unique, whole) = Reachable-IsWhole entries r in
      (
        drop_entry-IsUnique folds name entries unique,
        All-drop_entry folds IsComplete name entries whole,
      )
  Reachable-IsWhole _ (registered {entries} repo_root basename now r full) =
      auto_register-IsWhole repo_root basename now entries full (Reachable-IsWhole entries r)

-- In every registry that adding entries with a name and a path, dropping and registering can make
-- of no file, no name and no path stands twice, and the file is read back as it was written.
pub Reachable-IsUnique :
    (folds : Option LowerAt) (entries : List RegistryEntry)
    → Reachable folds entries
    → IsUnique folds entries × (read_registry (write_registry entries) ≡ ok entries)
Reachable-IsUnique folds entries r =
    let (unique, whole) = Reachable-IsWhole folds entries r in
    (unique, read-write_registry entries whole)
