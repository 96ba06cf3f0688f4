-- ===== src/Sync/Cursor/Lines.antt =====
-- The lines of a transcript, as text and as bytes (`countLines` in sync/ledger.ts, and the split in
-- `initialLedgerCursor`).
use mathlib.Core.List.{append-nil}
use codealmanac.Prelude.{
  ℕ, ◌+◌, true, false, ◌≡◌, ◌≢◌, refl, sym, ◌∙◌, All, ◌⊎◌, inl, inr, List, [], ◌∷◌, ◌++◌, Text,
  arith, if◌then◌else◌, ◌==◌, Bool-cases,
}
use codealmanac.Sync.Ledger.{
  newline, count_newlines, ends_with_newline, count_lines, push_line, split_lines,
}
use codealmanac.Sync.Utf8.{encode_char, encode_utf8}
use codealmanac.Sync.Utf8.Laws.{encode_char-cases}

abbrev pub join_lines : List (List ℕ) → List ℕ
join_lines [] = []
join_lines (l ∷ ls) = l ++ join_lines ls

-- Lines as `split_lines` makes them: one newline at the end of each, which the last may lack.
abbrev pub AreLines : List (List ℕ) → Type 0
AreLines [] = Unit
AreLines (l ∷ ls) =
    (count_lines l ≡ 1) × (l ≢ []) × ((ls ≡ []) ⊎ (ends_with_newline l ≡ true)) × AreLines ls

push_line-AreLines :
    (c : ℕ) (ls : List (List ℕ)) → (c == newline) ≡ false → AreLines ls → AreLines (push_line c ls)
unfolding count_lines
push_line-AreLines c [] h a = (ground arith, ground arith, inl refl, tt)
push_line-AreLines c ([] ∷ ls) h (one, some_left, e, a) = absurd (some_left refl)
push_line-AreLines c ((d ∷ l) ∷ ls) h (one, some_left, e, a) = (ground arith, ground arith, e, a)

pub split_lines-AreLines : (s : List ℕ) → AreLines (split_lines s)
unfolding split_lines
split_lines-AreLines [] = tt
split_lines-AreLines (c ∷ s) = elim (Bool-cases (c == newline)) [
  | inl end ↦
      rw end (unfold count_lines in ground arith, ground arith, inr end, split_lines-AreLines s)
  | inr inside ↦ rw inside (push_line-AreLines c (split_lines s) inside (split_lines-AreLines s))
]

join_lines-push_line :
    (c : ℕ) (ls : List (List ℕ)) → join_lines (push_line c ls) ≡ c ∷ join_lines ls
join_lines-push_line c [] = refl
join_lines-push_line c (l ∷ ls) = refl

pub join_lines-split_lines : (s : List ℕ) → join_lines (split_lines s) ≡ s
unfolding split_lines
join_lines-split_lines [] = refl
join_lines-split_lines (c ∷ s) =
    ground (arith, join_lines-split_lines s, join_lines-push_line c (split_lines s))

count_newlines-append :
    (xs ys : List ℕ) → count_newlines (xs ++ ys) ≡ count_newlines xs + count_newlines ys
count_newlines-append [] ys = omega arith
count_newlines-append (x ∷ xs) ys = ground (arith, count_newlines-append xs ys)

ends_with_newline-append :
    (xs ys : List ℕ) → ys ≢ [] → ends_with_newline (xs ++ ys) ≡ ends_with_newline ys
ends_with_newline-append [] ys h = refl
ends_with_newline-append (x ∷ []) [] h = absurd (h refl)
ends_with_newline-append (x ∷ []) (y ∷ ys) h = refl
ends_with_newline-append (x ∷ d ∷ xs) ys h = ends_with_newline-append (d ∷ xs) ys h

count_newlines-quiet :
    (bytes : List ℕ) → All (λ d. (d == newline) ≡ false) bytes → count_newlines bytes ≡ 0
count_newlines-quiet [] h = refl
count_newlines-quiet (b ∷ bytes) (q, h) = rw q (count_newlines-quiet bytes h)

-- The bytes of a text have its lines.
count_newlines-encode_utf8 : (s : Text) → count_newlines (encode_utf8 s) ≡ count_newlines s
unfolding encode_utf8
count_newlines-encode_utf8 [] = refl
count_newlines-encode_utf8 (c ∷ s) = elim (encode_char-cases c) [
  | inl e ↦ rw e (ground (arith, count_newlines-encode_utf8 s))
  | inr (inner, b, bytes, e, quiet) ↦ rw e (
      count_newlines-append (b ∷ bytes) (encode_utf8 s)
      ∙ ground (arith, count_newlines-quiet (b ∷ bytes) quiet, count_newlines-encode_utf8 s))
]

ends_with_newline-quiet :
    (bytes : List ℕ) → All (λ d. (d == newline) ≡ false) bytes → ends_with_newline bytes ≡ false
ends_with_newline-quiet [] h = refl
ends_with_newline-quiet (b ∷ []) (q, h) = q
ends_with_newline-quiet (b ∷ c ∷ bytes) (q, h) = ends_with_newline-quiet (c ∷ bytes) h

encode_utf8-full : (c : ℕ) (s : Text) → encode_utf8 (c ∷ s) ≢ []
unfolding encode_utf8
encode_utf8-full c s h = elim (encode_char-cases c) [
  | inl e ↦ cc (rw e at h)
  | inr (_, b, bytes, e, _) ↦ cc (rw e at h)
]

ends_with_newline-encode_utf8 : (s : Text) → ends_with_newline (encode_utf8 s) ≡ ends_with_newline s
unfolding encode_utf8
ends_with_newline-encode_utf8 [] = refl
ends_with_newline-encode_utf8 (c ∷ []) = elim (encode_char-cases c) [
  | inl e ↦ rw e refl
  | inr (inner, b, bytes, e, quiet) ↦
      rw (e, append-nil) (ends_with_newline-quiet (b ∷ bytes) quiet ∙ sym inner)
]
ends_with_newline-encode_utf8 (c ∷ d ∷ s) =
    ends_with_newline-append (encode_char c) (encode_utf8 (d ∷ s)) (encode_utf8-full d s)
    ∙ ends_with_newline-encode_utf8 (d ∷ s)

count_lines-full :
    (s : List ℕ)
    → s ≢ []
    → count_lines s ≡ count_newlines s + (if ends_with_newline s then 0 else 1)
unfolding count_lines
count_lines-full [] h = absurd (h refl)
count_lines-full (c ∷ s) h = refl

pub count_lines-encode_utf8 : (s : Text) → count_lines (encode_utf8 s) ≡ count_lines s
count_lines-encode_utf8 [] = unfold encode_utf8 in refl
count_lines-encode_utf8 (c ∷ s) =
    count_lines-full (encode_utf8 (c ∷ s)) (encode_utf8-full c s)
    ∙ rw (count_newlines-encode_utf8 (c ∷ s), ends_with_newline-encode_utf8 (c ∷ s))
        (sym (count_lines-full (c ∷ s) (λ e. cc e)))

-- Text that is empty or ends with a newline.
abbrev pub IsComplete : List ℕ → Type 0
IsComplete pre = count_lines pre ≡ count_newlines pre

pub count_lines-append :
    (pre l : List ℕ)
    → IsComplete pre
    → count_lines l ≡ 1
    → l ≢ []
    → count_lines (pre ++ l) ≡ count_lines pre + 1
unfolding count_lines
count_lines-append [] l whole one some_left = ground arith
count_lines-append (x ∷ pre) [] whole one some_left = absurd (some_left refl)
count_lines-append (x ∷ pre) (c ∷ l) whole one some_left = ground (
  arith,
  count_newlines-append (x ∷ pre) (c ∷ l),
  ends_with_newline-append (x ∷ pre) (c ∷ l) some_left,
)

pub IsComplete-append :
    (pre l : List ℕ) → l ≢ [] → ends_with_newline l ≡ true → IsComplete (pre ++ l)
unfolding count_lines
IsComplete-append pre [] some_left h = absurd (some_left refl)
IsComplete-append [] (c ∷ l) some_left h = ground arith
IsComplete-append (x ∷ pre) (c ∷ l) some_left h =
    ground (arith, ends_with_newline-append (x ∷ pre) (c ∷ l) some_left)
