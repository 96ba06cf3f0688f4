-- ===== src/Pages/Split/Relines.antt =====
-- The lines of a block that is put together from lines (wiki/topics/frontmatter-rewrite.ts).
use mathlib.Core.List.{append-nil}
use codealmanac.Prelude.{
  ℕ, Bool, true, false, not, ◌||◌, ◌≡◌, refl, ap, ◌∙◌, none, List, [], ◌∷◌, ◌++◌, Text, arith,
  is_empty,
}
use codealmanac.Pages.Split.{take_newline, drop_last_newline, split_newlines, frontmatter_lines}
use codealmanac.Pages.Scalars.{ends_with}
use codealmanac.Pages.Split.Again.{eol, has_lf, IsClear, AreClear, lines_text, no_newline, shorter}

-- The lines but for the last ending.
joined : Bool → Text → List Text → Text
joined crlf line [] = line
joined crlf line (next ∷ lines) = line ++ (eol crlf ++ joined crlf next lines)

split_newlines-line :
    (crlf : Bool) (line rest : Text)
    → has_lf line ≡ false
    → (crlf || not (ends_with 13 line)) ≡ true
    → split_newlines (line ++ (eol crlf ++ rest)) ≡ line ∷ split_newlines rest
unfolding split_newlines
split_newlines-line true [] rest h k = refl
split_newlines-line false [] rest h k = refl
split_newlines-line true (c ∷ []) rest h k = ground arith
split_newlines-line false (c ∷ []) rest h k = ground arith
split_newlines-line crlf (c ∷ d ∷ line) rest h k =
    ground (arith, split_newlines-line crlf (d ∷ line) rest (ground arith) k)

split_newlines-last : (line : Text) → has_lf line ≡ false → split_newlines line ≡ line ∷ []
unfolding split_newlines
split_newlines-last [] h = refl
split_newlines-last (c ∷ []) h = ground arith
split_newlines-last (c ∷ d ∷ line) h = ground (arith, split_newlines-last (d ∷ line) (ground arith))

split_newlines-joined :
    (crlf : Bool) (line : Text) (lines : List Text)
    → IsClear crlf line
    → AreClear crlf lines
    → split_newlines (joined crlf line lines) ≡ line ∷ lines
unfolding joined
split_newlines-joined crlf line [] (lf, differs, cr) h = split_newlines-last line lf
split_newlines-joined crlf line (next ∷ lines) (lf, differs, cr) (clear, h) =
    split_newlines-line crlf line (joined crlf next lines) lf cr
    ∙ ap (λ list. line ∷ list) (split_newlines-joined crlf next lines clear h)

drop_last_newline-behind :
    (c : ℕ) (s : Text)
    → take_newline (c ∷ s) ≡ none
    → drop_last_newline (c ∷ s) ≡ c ∷ drop_last_newline s
unfolding drop_last_newline
drop_last_newline-behind c s h = ground (arith, h)

drop_last_newline-line :
    (crlf : Bool) (line rest : Text)
    → has_lf line ≡ false
    → (crlf || not (ends_with 13 line)) ≡ true
    → drop_last_newline (line ++ (eol crlf ++ rest)) ≡ line ++ drop_last_newline (eol crlf ++ rest)
unfolding drop_last_newline
drop_last_newline-line crlf [] rest h k = refl
drop_last_newline-line crlf (c ∷ line) rest h k =
    drop_last_newline-behind c (line ++ (eol crlf ++ rest)) (no_newline crlf c line rest h k)
    ∙ ap (λ s. c ∷ s) (drop_last_newline-line crlf line rest (ground arith) (shorter crlf c line k))

drop_last_newline-eol :
    (crlf : Bool) (c : ℕ) (s : Text)
    → drop_last_newline (eol crlf ++ (c ∷ s)) ≡ eol crlf ++ drop_last_newline (c ∷ s)
unfolding drop_last_newline take_newline
drop_last_newline-eol true c s = refl
drop_last_newline-eol false c s = refl

drop_last_newline-last : (crlf : Bool) → drop_last_newline (eol crlf ++ []) ≡ []
unfolding drop_last_newline take_newline
drop_last_newline-last true = refl
drop_last_newline-last false = refl

lines_text-full :
    (crlf : Bool) (line : Text) (lines : List Text)
    → (c : ℕ) × (s : Text) × (lines_text crlf (line ∷ lines) ≡ c ∷ s)
lines_text-full true [] lines = (13, 10 ∷ lines_text true lines, refl)
lines_text-full false [] lines = (10, lines_text false lines, refl)
lines_text-full crlf (c ∷ line) lines = (c, line ++ (eol crlf ++ lines_text crlf lines), refl)

drop_last_newline-lines :
    (crlf : Bool) (line : Text) (lines : List Text)
    → IsClear crlf line
    → AreClear crlf lines
    → drop_last_newline (lines_text crlf (line ∷ lines)) ≡ joined crlf line lines
unfolding joined
drop_last_newline-lines crlf line [] (lf, differs, cr) h =
    drop_last_newline-line crlf line [] lf cr
    ∙ ap (λ s. line ++ s) (drop_last_newline-last crlf)
    ∙ append-nil line
drop_last_newline-lines crlf line (next ∷ lines) (lf, differs, cr) (clear, h) =
    let (c, s, e) = lines_text-full crlf next lines in
    let inner : drop_last_newline (eol crlf ++ lines_text crlf (next ∷ lines))
        ≡ eol crlf ++ drop_last_newline (lines_text crlf (next ∷ lines)) =
      rw e (drop_last_newline-eol crlf c s) in
    drop_last_newline-line crlf line (lines_text crlf (next ∷ lines)) lf cr
    ∙ ap (λ s. line ++ s)
        (inner ∙ ap (λ s. eol crlf ++ s) (drop_last_newline-lines crlf next lines clear h))

-- The block gives its lines back.
pub frontmatter_lines-lines_text :
    (crlf : Bool) (line : Text) (lines : List Text)
    → IsClear crlf line
    → AreClear crlf lines
    → frontmatter_lines (lines_text crlf (line ∷ lines)) ≡ line ∷ lines
unfolding frontmatter_lines
frontmatter_lines-lines_text crlf line lines clear h =
    let (c, s, e) = lines_text-full crlf line lines in
    let full : is_empty (lines_text crlf (line ∷ lines)) ≡ false = rw e refl in
    rw (full, drop_last_newline-lines crlf line lines clear h)
      (split_newlines-joined crlf line lines clear h)
