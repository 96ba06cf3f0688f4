-- ===== src/Sync/Utf8/Laws.antt =====
-- Texts and their bytes: what is put together, and where the lines end.
use Prim.Native.Nat.{◌/◌, ◌%◌}
use mathlib.Core.List.{append_assoc}
use codealmanac.Prelude.{
  ℕ, ◌+◌, false, ◌≡◌, refl, sym, ap, ◌∙◌, List, [], ◌∷◌, ◌++◌, Text, ltb, ◌==◌, arith, Bool-cases,
  inl, inr, ◌⊎◌, All,
}
use codealmanac.Sync.Utf8.{encode_char, encode_utf8, decode_utf8}

-- The bytes are those of the text that they are decoded to.
abbrev pub IsUtf8 : List ℕ → Type 0
IsUtf8 bytes = encode_utf8 (decode_utf8 bytes) ≡ bytes

pub encode_utf8-append : (s t : Text) → encode_utf8 (s ++ t) ≡ encode_utf8 s ++ encode_utf8 t
unfolding encode_utf8
encode_utf8-append [] t = refl
encode_utf8-append (c ∷ s) t =
    ap (λ bytes. encode_char c ++ bytes) (encode_utf8-append s t)
    ∙ sym (append_assoc (encode_char c) (encode_utf8 s) (encode_utf8 t))

-- A character beyond ASCII has no byte of ASCII.
pub encode_char-cases :
    (c : ℕ)
    → (encode_char c ≡ c ∷ [])
      ⊎ (((c == 10) ≡ false)
          × (b : ℕ) × (bytes : List ℕ) × (encode_char c ≡ b ∷ bytes)
          × All (λ d. (d == 10) ≡ false) (b ∷ bytes))
unfolding encode_char
encode_char-cases c = elim (Bool-cases (ltb c 0x80)) [
  | inl ascii ↦ inl (rw ascii refl)
  | inr beyond ↦ elim (Bool-cases (ltb c 0x800)) [
    | inl two ↦ inr (
      ground arith,
      192 + c / 64,
      (128 + c % 64) ∷ [],
      rw (beyond, two) refl,
      (ground arith, (ground arith, tt)),
    )
    | inr longer ↦ elim (Bool-cases (ltb c 0x10000)) [
      | inl three ↦ inr (
        ground arith,
        224 + c / 4096,
        (128 + c / 64 % 64) ∷ (128 + c % 64) ∷ [],
        rw (beyond, longer, three) refl,
        (ground arith, (ground arith, (ground arith, tt))),
      )
      | inr four ↦ inr (
        ground arith,
        240 + c / 262144,
        (128 + c / 4096 % 64) ∷ (128 + c / 64 % 64) ∷ (128 + c % 64) ∷ [],
        rw (beyond, longer, four) refl,
        (ground arith, (ground arith, (ground arith, (ground arith, tt)))),
      )
    ]
  ]
]
