-- ===== src/Registry/AutoRegister/Laws.antt =====
-- What an automatic registration does to the registry (wiki/registry/autoregister.ts).
use codealmanac.Prelude.{
  LowerAt, Option, suc, ◌≤◌, Bool, true, false, ◌≡◌, refl, sym, ap, ◌∙◌, ◌⊎◌, inl, inr, none, some,
  List, [], ◌∷◌, ◌++◌, keep, Text, same, same_iff, contains, length, In, is_empty, Bool-cases,
  Option-cases, arith, leb,
}
use codealmanac.Slug.{to_kebab_case}
use codealmanac.Review.Item.{first_free}
use codealmanac.Review.Item.Fresh.{first_free_found, first_free_new}
use codealmanac.Registry.{RegistryEntry, paths_equal, is_apart, add_entry}
use codealmanac.Registry.AutoRegister.{
  names_of, first_with, resolve_name_collision, named_entry, register_as, register_unless_found,
  auto_register,
}

first_with-In :
    (p : RegistryEntry → Bool) (e : RegistryEntry) (entries : List RegistryEntry)
    → first_with p entries ≡ some e
    → In e entries × (p e ≡ true)
unfolding first_with
first_with-In p e [] h = absurd (cc h)
first_with-In p e (x ∷ entries) h = elim (Bool-cases (p x)) [
  | inl hit ↦ let same : x ≡ e = cc (rw hit at h) in (inl (sym same), sym (ap p same) ∙ hit)
  | inr miss ↦ let (i, k) = first_with-In p e entries (rw miss at h) in (inr i, k)
]

first_with-none :
    (p : RegistryEntry → Bool) (e : RegistryEntry) (entries : List RegistryEntry)
    → first_with p entries ≡ none
    → In e entries
    → p e ≡ false
unfolding first_with
first_with-none p e [] h i = absurd i
first_with-none p e (x ∷ entries) h i = elim (Bool-cases (p x)) [
  | inl hit ↦ cc (rw hit at h)
  | inr miss ↦ elim i [
    | inl e ↦ ap p e ∙ miss
    | inr j ↦ first_with-none p e entries (rw miss at h) j
  ]
]

no_name-contains :
    (name : Text) (entries : List RegistryEntry)
    → first_with (λ e. same e.name name) entries ≡ none
    → contains name (names_of entries) ≡ false
unfolding first_with contains
no_name-contains name [] h = refl
no_name-contains name (x ∷ entries) h =
    ground (arith, no_name-contains name entries, same_iff x.name name, same_iff name x.name)

-- Entries with other names and other paths all stay.
keep-eq_all :
    (p : RegistryEntry → Bool) (entries : List RegistryEntry)
    → ((e : RegistryEntry) → In e entries → p e ≡ true)
    → keep p entries ≡ entries
keep-eq_all p [] h = refl
keep-eq_all p (x ∷ entries) h = rw (h x (inl refl), keep-eq_all p entries (λ e i. h e (inr i))) refl

fresh_name :
    (name : Text) (e : RegistryEntry) (entries : List RegistryEntry)
    → contains name (names_of entries) ≡ false
    → In e entries
    → same e.name name ≡ false
unfolding contains
fresh_name name e [] h i = absurd i
fresh_name name e (x ∷ entries) h (inl same_entry) =
    rw same_entry (ground (arith, same_iff x.name name, same_iff name x.name))
fresh_name name e (x ∷ entries) h (inr i) = fresh_name name e entries (ground arith) i

-- Below a thousand names, the search for a free one succeeds.
full : (base : Text) (names : List Text) → first_free base names 1000 2 ≡ none → 1000 ≤ length names
full base names h = elim (Bool-cases (leb 1000 (length names))) [
  | inl many ↦ ground arith
  | inr few ↦ let (id, found) = first_free_found base 1000 2 names (ground arith) in cc (found, h)
]

length-names_of : (entries : List RegistryEntry) → length (names_of entries) ≡ length entries
length-names_of [] = refl
length-names_of (e ∷ entries) = ap suc (length-names_of entries)

module _ (folds : Option LowerAt) where
  add_entry_fresh :
      (entry : RegistryEntry) (entries : List RegistryEntry)
      → contains entry.name (names_of entries) ≡ false
      → first_with (λ e. paths_equal folds e.path entry.path) entries ≡ none
      → add_entry folds entry entries ≡ entries ++ entry ∷ []
  unfolding add_entry
  add_entry_fresh entry entries new away =
      ap (λ list. list ++ entry ∷ [])
        (keep-eq_all (λ e. is_apart folds e entry) entries
          (λ e i.
            rw
              (
                fresh_name entry.name e entries new i,
                first_with-none (λ e. paths_equal folds e.path entry.path) e entries away i,
              )
              refl))

  -- A name that nobody has, unless a thousand entries stand in the way.
  resolve_name_collision_lem :
      (entries : List RegistryEntry) (base repo_path : Text)
      → first_with (λ e. paths_equal folds e.path repo_path) entries ≡ none
      → ((name : Text) × (resolve_name_collision folds entries base repo_path ≡ some name)
          × (contains name (names_of entries) ≡ false))
        ⊎ ((resolve_name_collision folds entries base repo_path ≡ none)
            × (1000 ≤ length (names_of entries)))
  unfolding resolve_name_collision
  resolve_name_collision_lem entries base repo_path away =
      elim (Option-cases (first_with (λ e. same e.name base) entries)) [
        | inl nobody ↦ inl (base, rw nobody refl, no_name-contains base entries nobody)
        | inr (owner, e) ↦
            let (i, _) = first_with-In (λ e. same e.name base) owner entries e in
            let elsewhere =
              first_with-none (λ e. paths_equal folds e.path repo_path) owner entries away i in
            rw (e, elsewhere)
              (elim (Option-cases (first_free base (names_of entries) 1000 2)) [
                | inr (name, f) ↦
                    inl (name, f, first_free_new base 1000 2 (names_of entries) name f)
                | inl f ↦ inr (f, full base (names_of entries) f)
              ])
      ]

  register_as_lem :
      (repo_root now : Text) (entries : List RegistryEntry) (name : Text)
      → contains name (names_of entries) ≡ false
      → first_with (λ e. paths_equal folds e.path repo_root) entries ≡ none
      → register_as folds (some name) repo_root now entries ≡ (
        some (named_entry folds name repo_root now),
        entries ++ named_entry folds name repo_root now ∷ [],
      )
  unfolding register_as
  register_as_lem repo_root now entries name new away =
      ap (λ list. (some (named_entry folds name repo_root now), list))
        (add_entry_fresh (named_entry folds name repo_root now) entries new away)

-- A registration finds an entry with the directory's path and leaves the registry as it is, or adds
-- one entry with that path and a name that no entry has, behind all entries that were there. It
-- does neither only if the directory's name holds no slug, or if there are a thousand entries.
pub auto_register_lem :
    (folds : Option LowerAt) (repo_root basename now : Text) (entries : List RegistryEntry)
    → ((e : RegistryEntry) × In e entries
        × (paths_equal folds e.path repo_root ≡ true)
        × (auto_register folds repo_root basename now entries ≡ (some e, entries)))
      ⊎ ((e : RegistryEntry) × (e.path ≡ repo_root)
          × (contains e.name (names_of entries) ≡ false)
          × (auto_register folds repo_root basename now entries ≡ (some e, entries ++ e ∷ [])))
      ⊎ ((auto_register folds repo_root basename now entries ≡ (none, entries))
          × ((is_empty (to_kebab_case basename) ≡ true) ⊎ (1000 ≤ length entries)))
unfolding auto_register register_unless_found
auto_register_lem folds repo_root basename now entries =
    let name = to_kebab_case basename in
    elim (Option-cases (first_with (λ e. paths_equal folds e.path repo_root) entries)) [
      | inr (e, found) ↦
          let (i, own) = first_with-In (λ e. paths_equal folds e.path repo_root) e entries found in
          inl (e, i, own, rw (found, register_unless_found) refl)
      | inl away ↦ elim (Bool-cases (is_empty name)) [
        | inl blank ↦ inr (inr (rw (away, register_unless_found, blank) refl, inl blank))
        | inr full_name ↦ elim (resolve_name_collision_lem folds entries name repo_root away) [
          | inl (final, e, new) ↦ inr (
              inl (
                named_entry folds final repo_root now,
                refl,
                new,
                rw (away, register_unless_found, full_name, e)
                    (register_as_lem folds repo_root now entries final new away),
              ))
          | inr (e, many) ↦ inr (
              inr (
                rw (away, register_unless_found, full_name, e, register_as) refl,
                inr (omega (arith, length-names_of entries, many)),
              ))
        ]
      ]
    ]
