-- ===== src/Pages/Split/Again.antt =====
-- A page put together from its parts is split into them (wiki/topics/frontmatter-rewrite.ts).
use mathlib.Core.List.{append_assoc}
use codealmanac.Prelude.{
  ℕ, Bool, true, false, not, ◌||◌, ◌≡◌, refl, subst, sym, ap, ◌∙◌, inl, inr, Option, none, some,
  List, [], ◌∷◌, ◌++◌, Text, same, ◌==◌, if◌then◌else◌, Option-cases, arith, All,
}
use codealmanac.Pages.Split.{
  fence, strip_prefix, take_newline, ends_line, if_line_ends, fence_at, find_fence,
  frontmatter_block, SplitFrontmatter, split_closer, split_opened, split_frontmatter, opener_of,
  closer_of,
}
use codealmanac.Pages.Scalars.{ends_with}

abbrev pub eol : Bool → Text
eol crlf = if crlf then 13 ∷ 10 ∷ [] else 10 ∷ []

abbrev pub has_lf : Text → Bool
has_lf [] = false
has_lf (c ∷ s) = c == 10 || has_lf s

-- A line that is no fence, and that its ending does not change.
abbrev pub IsClear : Bool → Text → Type 0
IsClear crlf line =
    (has_lf line ≡ false) × (same line fence ≡ false) × ((crlf || not (ends_with 13 line)) ≡ true)

abbrev pub lines_text : Bool → List Text → Text
lines_text crlf [] = []
lines_text crlf (line ∷ lines) = line ++ (eol crlf ++ lines_text crlf lines)

abbrev prepend : Text → Option (Text × Text) → Option (Text × Text)
prepend s none = none
prepend s (some (block, t)) = some (s ++ block, t)

pub no_newline :
    (crlf : Bool) (c : ℕ) (line rest : Text)
    → has_lf (c ∷ line) ≡ false
    → (crlf || not (ends_with 13 (c ∷ line))) ≡ true
    → take_newline (c ∷ (line ++ (eol crlf ++ rest))) ≡ none
unfolding take_newline
no_newline true c [] rest h k = ground arith
no_newline false c [] rest h k = ground arith
no_newline crlf c (d ∷ line) rest h k = ground arith

find_fence-behind :
    (c : ℕ) (s : Text)
    → take_newline (c ∷ s) ≡ none
    → find_fence (c ∷ s) ≡ prepend (c ∷ []) (find_fence s)
unfolding find_fence fence_at
find_fence-behind c s h = elim (Option-cases (find_fence s)) [
  | inl e ↦ ground (arith, h, e)
  | inr ((b, t), e) ↦ ground (arith, h, e)
]

prepend-prepend :
    (c : ℕ) (s : Text) (o : Option (Text × Text))
    → prepend (c ∷ []) (prepend s o) ≡ prepend (c ∷ s) o
prepend-prepend c s none = refl
prepend-prepend c s (some (b, t)) = refl

prepend-nil : (o : Option (Text × Text)) → prepend [] o ≡ o
prepend-nil none = refl
prepend-nil (some (b, t)) = refl

pub shorter :
    (crlf : Bool) (c : ℕ) (line : Text)
    → (crlf || not (ends_with 13 (c ∷ line))) ≡ true
    → (crlf || not (ends_with 13 line)) ≡ true
shorter crlf c [] h = ground arith
shorter crlf c (d ∷ line) h = h

find_fence-line :
    (crlf : Bool) (line rest : Text)
    → has_lf line ≡ false
    → (crlf || not (ends_with 13 line)) ≡ true
    → find_fence (line ++ (eol crlf ++ rest)) ≡ prepend line (find_fence (eol crlf ++ rest))
find_fence-line crlf [] rest h k = sym (prepend-nil (find_fence (eol crlf ++ rest)))
find_fence-line crlf (c ∷ line) rest h k =
    find_fence-behind c (line ++ (eol crlf ++ rest)) (no_newline crlf c line rest h k)
    ∙ ap (prepend (c ∷ [])) (find_fence-line crlf line rest (ground arith) (shorter crlf c line k))
    ∙ prepend-prepend c line (find_fence (eol crlf ++ rest))

-- What follows a line ending is not the closing fence.
IsOpen : Text → Type 0
IsOpen s = (n : Text) → if_line_ends n (strip_prefix fence s) ≡ none

find_fence-eol :
    (crlf : Bool) (s : Text)
    → IsOpen s
    → find_fence (eol crlf ++ s) ≡ prepend (eol crlf) (find_fence s)
unfolding find_fence fence_at take_newline IsOpen
find_fence-eol true s h = elim (Option-cases (find_fence s)) [
  | inl e ↦ ground (arith, h (10 ∷ []), h (13 ∷ 10 ∷ []), e)
  | inr ((b, t), e) ↦ ground (arith, h (10 ∷ []), h (13 ∷ 10 ∷ []), e)
]
find_fence-eol false s h = elim (Option-cases (find_fence s)) [
  | inl e ↦ ground (arith, h (10 ∷ []), e)
  | inr ((b, t), e) ↦ ground (arith, h (10 ∷ []), e)
]

-- A clear line begins nothing that is a closing fence.
IsClear-IsOpen :
    (crlf : Bool) (line rest : Text) → IsClear crlf line → IsOpen (line ++ (eol crlf ++ rest))
unfolding IsOpen strip_prefix take_newline same
IsClear-IsOpen true [] rest h n = refl
IsClear-IsOpen false [] rest h n = refl
IsClear-IsOpen true (a ∷ []) rest h n = ground arith
IsClear-IsOpen false (a ∷ []) rest h n = ground arith
IsClear-IsOpen true (a ∷ b ∷ []) rest h n = ground arith
IsClear-IsOpen false (a ∷ b ∷ []) rest h n = ground arith
IsClear-IsOpen crlf (a ∷ b ∷ c ∷ []) rest (lf, differs, cr) n = ground arith
IsClear-IsOpen true (a ∷ b ∷ c ∷ d ∷ []) rest (lf, differs, cr) n = ground arith
IsClear-IsOpen false (a ∷ b ∷ c ∷ d ∷ []) rest (lf, differs, cr) n = ground arith
IsClear-IsOpen crlf (a ∷ b ∷ c ∷ d ∷ e ∷ line) rest (lf, differs, cr) n = ground arith

abbrev pub AreClear : Bool → List Text → Type 0
AreClear crlf lines = All (λ line. IsClear crlf line) lines

-- The lines with their endings, and what follows them.
lines_then : Bool → List Text → Text → Text
lines_then crlf [] rest = rest
lines_then crlf (line ∷ lines) rest = line ++ (eol crlf ++ lines_then crlf lines rest)

lines_text-append :
    (crlf : Bool) (lines : List Text) (rest : Text)
    → lines_text crlf lines ++ rest ≡ lines_then crlf lines rest
unfolding lines_then
lines_text-append crlf [] rest = refl
lines_text-append crlf (line ∷ lines) rest =
    append_assoc line (eol crlf ++ lines_text crlf lines) rest
    ∙ ap (λ s. line ++ s)
        (append_assoc (eol crlf) (lines_text crlf lines) rest
          ∙ ap (λ s. eol crlf ++ s) (lines_text-append crlf lines rest))

find_fence_here :
    (crlf : Bool) (t : Text)
    → ends_line t ≡ true
    → find_fence (eol crlf ++ (fence ++ t)) ≡ some (eol crlf ++ [], t)
unfolding find_fence fence_at take_newline strip_prefix
find_fence_here true t closed = ground (arith, closed)
find_fence_here false t closed = ground (arith, closed)

-- The closing fence is found behind the last line.
find_fence-lines :
    (crlf : Bool) (line : Text) (lines : List Text) (t : Text)
    → IsClear crlf line
    → AreClear crlf lines
    → ends_line t ≡ true
    → find_fence (lines_then crlf (line ∷ lines) (fence ++ t))
      ≡ some (lines_text crlf (line ∷ lines), t)
unfolding lines_then
find_fence-lines crlf line [] t (lf, differs, cr) h closed =
    find_fence-line crlf line (fence ++ t) lf cr ∙ ap (prepend line) (find_fence_here crlf t closed)
find_fence-lines crlf line (next ∷ lines) t (lf, differs, cr) (clear, h) closed =
    let rest = lines_then crlf lines (fence ++ t) in
    find_fence-line crlf line (next ++ (eol crlf ++ rest)) lf cr
    ∙ ap (prepend line) (
        find_fence-eol crlf (next ++ (eol crlf ++ rest)) (IsClear-IsOpen crlf next rest clear)
        ∙ ap (prepend (eol crlf)) (find_fence-lines crlf next lines t clear h closed))

-- The first line begins with no fence.
strip_prefix-line :
    (crlf : Bool) (line rest : Text)
    → strip_prefix fence line ≡ none
    → strip_prefix fence (line ++ (eol crlf ++ rest)) ≡ none
unfolding strip_prefix
strip_prefix-line true [] rest h = refl
strip_prefix-line false [] rest h = refl
strip_prefix-line true (a ∷ []) rest h = ground arith
strip_prefix-line false (a ∷ []) rest h = ground arith
strip_prefix-line true (a ∷ b ∷ []) rest h = ground arith
strip_prefix-line false (a ∷ b ∷ []) rest h = ground arith
strip_prefix-line crlf (a ∷ b ∷ c ∷ line) rest h = ground arith

frontmatter_block-lines :
    (crlf : Bool) (line : Text) (lines : List Text) (t : Text)
    → IsClear crlf line
    → AreClear crlf lines
    → strip_prefix fence line ≡ none
    → ends_line t ≡ true
    → frontmatter_block (lines_text crlf (line ∷ lines) ++ (fence ++ t))
      ≡ some (lines_text crlf (line ∷ lines), t)
unfolding frontmatter_block
frontmatter_block-lines crlf line lines t clear h first closed =
    rw (lines_text-append crlf (line ∷ lines) (fence ++ t)) (
      let e : strip_prefix fence (lines_then crlf (line ∷ lines) (fence ++ t)) ≡ none =
        unfold lines_then in
        strip_prefix-line crlf line (lines_then crlf lines (fence ++ t)) first in
      rw (e, frontmatter_block) (find_fence-lines crlf line lines t clear h closed))

take_newline-again :
    (u n v rest : Text) → take_newline u ≡ some (n, v) → take_newline (n ++ rest) ≡ some (n, rest)
unfolding take_newline
take_newline-again [] n v rest h = absurd (cc h)
take_newline-again (c ∷ []) n v rest h = ground arith
take_newline-again (c ∷ d ∷ s) n v rest h = ground arith

split_closer-again :
    (n block b after_dashes : Text)
    → let q = split_closer n (b, after_dashes) in
      split_closer n (block, q.tail ++ q.body) ≡ record q { block = block }
unfolding split_closer
split_closer-again n block b after_dashes = elim (Option-cases (take_newline after_dashes)) [
  | inl e ↦
      let whole : split_closer n (b, after_dashes)
          ≡ record { newline = n; block = b; tail = []; body = after_dashes } =
        rw (e, split_closer) refl in
      subst
        (λ (q : SplitFrontmatter).
          split_closer n (block, q.tail ++ q.body) ≡ record q { block = block })
        (sym whole) (rw (e, split_closer) refl)
  | inr ((m, w), e) ↦
      let whole : split_closer n (b, after_dashes)
          ≡ record { newline = n; block = b; tail = m; body = w } =
        rw (e, split_closer) refl in
      subst
        (λ (q : SplitFrontmatter).
          split_closer n (block, q.tail ++ q.body) ≡ record q { block = block })
        (sym whole) (rw (take_newline-again after_dashes m w w e, split_closer) refl)
]

split_closer-newline : (n block t : Text) → (split_closer n (block, t)).newline ≡ n
unfolding split_closer
split_closer-newline n block t = elim (Option-cases (take_newline t)) [
  | inl e ↦ rw (e, split_closer) refl
  | inr (o, e) ↦ rw (e, split_closer) refl
]

-- With another block of clear lines a page is split where it was.
pub split_frontmatter-again :
    (raw : Text) (p : SplitFrontmatter) (crlf : Bool) (line : Text) (lines : List Text)
    → split_frontmatter raw ≡ some p
    → IsClear crlf line
    → AreClear crlf lines
    → strip_prefix fence line ≡ none
    → ends_line (p.tail ++ p.body) ≡ true
    → split_frontmatter (opener_of p ++ (lines_text crlf (line ∷ lines) ++ (closer_of p ++ p.body)))
      ≡ some (record p { block = lines_text crlf (line ∷ lines) })
unfolding split_frontmatter split_opened
split_frontmatter-again raw p crlf line lines h clear clears first closed =
    elim (Option-cases (strip_prefix fence raw)) [
      | inl e ↦ ground (arith, e)
      | inr (u, e) ↦ elim (Option-cases (take_newline u)) [
        | inl f ↦ ground (arith, e, f)
        | inr ((n, v), f) ↦ elim (Option-cases (frontmatter_block v)) [
          | inl g ↦ ground (arith, e, f, g)
          | inr ((b, t), g) ↦
              let k : split_closer n (b, t) ≡ p = ground (arith, e, f, g) in
              let block = lines_text crlf (line ∷ lines) in
              let same_newline : p.newline ≡ n =
                ap (λ (q : SplitFrontmatter). q.newline) (sym k) ∙ split_closer-newline n b t in
              let parts : split_closer n (block, p.tail ++ p.body) ≡ record p { block = block } =
                subst
                  (λ (q : SplitFrontmatter).
                    split_closer n (block, q.tail ++ q.body) ≡ record q { block = block })
                  k (split_closer-again n block b t) in
              let rest = block ++ (fence ++ (p.tail ++ p.body)) in
              let opened : take_newline (p.newline ++ rest) ≡ some (n, rest) =
                subst (λ m. take_newline (m ++ rest) ≡ some (n, rest)) (sym same_newline)
                  (take_newline-again u n v rest f) in
              rw (opened, split_frontmatter)
                (rw
                  (
                    frontmatter_block-lines crlf line lines (p.tail ++ p.body) clear clears first
                        closed,
                    split_opened,
                  )
                  (ap some parts))
        ]
      ]
    ]
