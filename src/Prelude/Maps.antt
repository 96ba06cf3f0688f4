-- ===== src/Prelude/Maps.antt =====
-- A map as an association list, each key once, in insertion order.
use mathlib.Core.Path.{◌≡◌, refl, sym, ap, subst}
use mathlib.Core.Logic.{◌⊎◌, inl, inr}
use mathlib.Core.Option.{Option, none, some}
use mathlib.Core.List.{List, [], ◌∷◌, map}
use native.Mathlib.Omega.{arith}
use codealmanac.Prelude.Tests.{if◌then◌else◌, Bool-cases}
use Prim.Native.Nat.{suc}
use codealmanac.Prelude.Lists.{length, In, NoRepeats}
use codealmanac.Prelude.Strings.{Text, same, same_iff, same_sound}

module _ {V : Type 0} where
  abbrev pub keys_of : List (Text × V) → List Text
  keys_of xs = map (λ x. x.0) xs

  pub length-keys_of : (xs : List (Text × V)) → length (keys_of xs) ≡ length xs
  length-keys_of [] = refl
  length-keys_of (x ∷ xs) = ap suc (length-keys_of xs)

  -- `map.get(key)`, `object[key]`
  unfoldable pub get_key : Text → List (Text × V) → Option V
  get_key key [] = none
  get_key key ((k, v) ∷ rest) = if same k key then some v else get_key key rest

  -- `map.set(key, value)`, `object[key] = value`
  unfoldable pub set_key : Text → V → List (Text × V) → List (Text × V)
  set_key key v [] = (key, v) ∷ []
  set_key key v ((k, w) ∷ rest) = if same k key then (k, v) ∷ rest else (k, w) ∷ set_key key v rest

  pub get_key-set_key :
      (key j : Text) (v : V) (xs : List (Text × V))
      → get_key j (set_key key v xs) ≡ (if same key j then some v else get_key j xs)
  unfolding get_key set_key
  get_key-set_key key j v [] = refl
  get_key-set_key key j v ((k, w) ∷ rest) =
      ground (arith, get_key-set_key key j v rest, same_iff k key, same_iff k j, same_iff key j)

  pub get_key-In :
      (key : Text) (v : V) (xs : List (Text × V)) → get_key key xs ≡ some v → In (key, v) xs
  unfolding get_key
  get_key-In key v [] h = absurd (cc h)
  get_key-In key v ((k, w) ∷ xs) h = elim (Bool-cases (same k key)) [
    | inl own ↦
        let e : k ≡ key = same_sound k key own in
        let f : w ≡ v = cc (rw own at h) in inl (cc (e, f))
    | inr other ↦ inr (get_key-In key v xs (rw other at h))
  ]

  pub In-keys : (key : Text) (v : V) (xs : List (Text × V)) → In (key, v) xs → In key (keys_of xs)
  In-keys key v [] i = absurd i
  In-keys key v ((k, w) ∷ xs) (inl e) = inl (ap (λ x. x.0) e)
  In-keys key v ((k, w) ∷ xs) (inr i) = inr (In-keys key v xs i)

  -- With each key once, an entry is the one that is found.
  pub get_key_of_In :
      (key : Text) (v : V) (xs : List (Text × V))
      → NoRepeats (keys_of xs)
      → In (key, v) xs
      → get_key key xs ≡ some v
  unfolding get_key
  get_key_of_In key v [] u i = absurd i
  get_key_of_In key v ((k, w) ∷ xs) (new, u) (inl e) =
      let same_key : k ≡ key = sym (ap (λ x. x.0) e) in
      let same_value : w ≡ v = sym (ap (λ x. x.1) e) in
      rw ((same_iff k key).1 same_key) (ap some same_value)
  get_key_of_In key v ((k, w) ∷ xs) (new, u) (inr i) = elim (Bool-cases (same k key)) [
    | inl own ↦
        absurd
          (new (subst (λ x. In x (keys_of xs)) (sym (same_sound k key own)) (In-keys key v xs i)))
    | inr other ↦ rw other (get_key_of_In key v xs u i)
  ]

  In-keys-set_key :
      (key j : Text) (v : V) (xs : List (Text × V))
      → In j (keys_of (set_key key v xs))
      → (j ≡ key) ⊎ In j (keys_of xs)
  unfolding set_key
  In-keys-set_key key j v [] i = i
  In-keys-set_key key j v ((k, w) ∷ xs) i = elim (Bool-cases (same k key)) [
    | inl own ↦ inr (rw own at i)
    | inr other ↦
        let l : In j (k ∷ keys_of (set_key key v xs)) = rw other at i in
        elim l [
          | inl e ↦ inr (inl e)
          | inr m ↦ elim (In-keys-set_key key j v xs m) [ inl e ↦ inl e | inr n ↦ inr (inr n) ]
        ]
  ]

  pub set_key-NoRepeats :
      (key : Text) (v : V) (xs : List (Text × V))
      → NoRepeats (keys_of xs)
      → NoRepeats (keys_of (set_key key v xs))
  unfolding set_key
  set_key-NoRepeats key v [] u = ((λ i. i), tt)
  set_key-NoRepeats key v ((k, w) ∷ xs) (new, u) = elim (Bool-cases (same k key)) [
    | inl own ↦ rw own (new, u)
    | inr other ↦ rw other (
      (λ i. elim (In-keys-set_key key k v xs i) [
        | inl e ↦ cc (other, (same_iff k key).1 e)
        | inr j ↦ new j
      ]),
      set_key-NoRepeats key v xs u,
    )
  ]
