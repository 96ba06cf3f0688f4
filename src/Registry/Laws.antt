-- ===== src/Registry/Laws.antt =====
-- The registry as a map from names (wiki/registry/store.ts).
use codealmanac.Prelude.{
  LowerAt, Bool, true, ◌≡◌, refl, inl, inr, Option, none, some, List, [], ◌∷◌, keep, Text, same,
  same_iff, All, All-append, if◌then◌else◌, Bool-cases, arith,
}
use codealmanac.Registry.{RegistryEntry, paths_equal, is_apart, add_entry, drop_entry, find_entry}

module _ (folds : Option LowerAt) where
  -- No two entries have a name or a path in common.
  abbrev pub IsUnique : List RegistryEntry → Type 0
  IsUnique [] = Unit
  IsUnique (e ∷ rest) = All (λ x. is_apart folds e x ≡ true) rest × IsUnique rest

  abbrev pub by_name : List RegistryEntry → Text → Option RegistryEntry
  by_name entries name = find_entry folds (some name) none entries

  -- The same operations on a map from names.
  abbrev elsewhere : RegistryEntry → Option RegistryEntry → Option RegistryEntry
  elsewhere entry none = none
  elsewhere entry (some e) = if paths_equal folds e.path entry.path then none else some e

  abbrev pub assign : RegistryEntry → (Text → Option RegistryEntry) → Text → Option RegistryEntry
  assign entry map name = if same entry.name name then some entry else elsewhere entry (map name)

  abbrev pub forget : Text → (Text → Option RegistryEntry) → Text → Option RegistryEntry
  forget dropped map name = if same dropped name then none else map name

  pub All-keep :
      (P : RegistryEntry → Type 0) (p : RegistryEntry → Bool) (entries : List RegistryEntry)
      → All P entries
      → All P (keep p entries)
  All-keep P p [] h = tt
  All-keep P p (e ∷ rest) (x, h) = elim (Bool-cases (p e)) [
    | inl kept ↦ rw kept (x, All-keep P p rest h)
    | inr gone ↦ rw gone (All-keep P p rest h)
  ]

  pub add_entry-IsUnique :
      (entry : RegistryEntry) (entries : List RegistryEntry)
      → IsUnique entries
      → IsUnique (add_entry folds entry entries)
  unfolding add_entry
  add_entry-IsUnique entry [] h = (tt, tt)
  add_entry-IsUnique entry (e ∷ rest) (apart, h) = elim (Bool-cases (is_apart folds e entry)) [
    | inl kept ↦ rw kept (
      All-append (λ x. is_apart folds e x ≡ true) (keep (λ x. is_apart folds x entry) rest)
          (entry ∷ [])
          (All-keep (λ x. is_apart folds e x ≡ true) (λ x. is_apart folds x entry) rest apart)
          (kept, tt),
      add_entry-IsUnique entry rest h,
    )
    | inr gone ↦ rw gone (add_entry-IsUnique entry rest h)
  ]

  pub All-drop_entry :
      (P : RegistryEntry → Type 0) (name : Text) (entries : List RegistryEntry)
      → All P entries
      → All P (drop_entry folds name entries).1
  unfolding drop_entry
  All-drop_entry P name [] h = tt
  All-drop_entry P name (e ∷ rest) (x, h) = elim (Bool-cases (same e.name name)) [
    | inl own ↦ rw own h
    | inr other ↦ rw other (x, All-drop_entry P name rest h)
  ]

  pub drop_entry-IsUnique :
      (name : Text) (entries : List RegistryEntry)
      → IsUnique entries
      → IsUnique (drop_entry folds name entries).1
  unfolding drop_entry
  drop_entry-IsUnique name [] h = tt
  drop_entry-IsUnique name (e ∷ rest) (apart, h) = elim (Bool-cases (same e.name name)) [
    | inl own ↦ rw own h
    | inr other ↦ rw other (
      All-drop_entry (λ x. is_apart folds e x ≡ true) name rest apart,
      drop_entry-IsUnique name rest h,
    )
  ]

  -- Behind an entry nobody has its name.
  by_name_apart :
      (e : RegistryEntry) (name : Text) (rest : List RegistryEntry)
      → All (λ x. is_apart folds e x ≡ true) rest
      → same e.name name ≡ true
      → by_name rest name ≡ none
  unfolding find_entry
  by_name_apart e name [] h k = refl
  by_name_apart e name (x ∷ rest) (apart, h) k = ground (
    arith,
    by_name_apart e name rest h k,
    same_iff e.name name,
    same_iff x.name name,
    same_iff e.name x.name,
  )

  by_name-add_entry :
      (entry : RegistryEntry) (entries : List RegistryEntry) (name : Text)
      → IsUnique entries
      → by_name (add_entry folds entry entries) name ≡ assign entry (by_name entries) name
  unfolding add_entry find_entry
  by_name-add_entry entry [] name h = refl
  by_name-add_entry entry (e ∷ rest) name (apart, h) = ground (
    arith,
    by_name-add_entry entry rest name h,
    by_name_apart e name rest apart,
    same_iff e.name name,
    same_iff entry.name name,
    same_iff e.name entry.name,
  )

  by_name-drop_entry :
      (dropped : Text) (entries : List RegistryEntry) (name : Text)
      → IsUnique entries
      → by_name (drop_entry folds dropped entries).1 name ≡ forget dropped (by_name entries) name
  unfolding drop_entry find_entry
  by_name-drop_entry dropped [] name h = ground arith
  by_name-drop_entry dropped (e ∷ rest) name (apart, h) = ground (
    arith,
    by_name-drop_entry dropped rest name h,
    by_name_apart e name rest apart,
    same_iff e.name name,
    same_iff dropped name,
    same_iff e.name dropped,
  )

  dropped-by_name :
      (dropped : Text) (entries : List RegistryEntry)
      → (drop_entry folds dropped entries).0 ≡ by_name entries dropped
  unfolding drop_entry find_entry
  dropped-by_name dropped [] = refl
  dropped-by_name dropped (e ∷ rest) = ground (arith, dropped-by_name dropped rest)

-- On a registry without a name or a path twice, adding and dropping are the operations on a map
-- from names: an added entry takes its name, and takes the place of another entry with its path; a
-- dropped one is gone, and is the one returned. Neither brings a name or a path in twice.
pub registry-refines-map :
    (folds : Option LowerAt) (entries : List RegistryEntry) (entry : RegistryEntry) (name : Text)
    → IsUnique folds entries
    → ((by_name folds (add_entry folds entry entries) name
          ≡ assign folds entry (by_name folds entries) name)
        × IsUnique folds (add_entry folds entry entries))
      × ((by_name folds (drop_entry folds entry.name entries).1 name
            ≡ forget folds entry.name (by_name folds entries) name)
          × ((drop_entry folds entry.name entries).0 ≡ by_name folds entries entry.name)
          × IsUnique folds (drop_entry folds entry.name entries).1)
registry-refines-map folds entries entry name h = (
  (by_name-add_entry folds entry entries name h, add_entry-IsUnique folds entry entries h),
  (
    by_name-drop_entry folds entry.name entries name h,
    dropped-by_name folds entry.name entries,
    drop_entry-IsUnique folds entry.name entries h,
  ),
)
