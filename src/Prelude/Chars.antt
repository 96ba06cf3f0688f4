-- ===== src/Prelude/Chars.antt =====
-- What the source uses of JavaScript's strings: `trim`, `toLowerCase` and `toUpperCase`.
use Prim.Native.Nat.{ℕ, ◌+◌, ◌-◌}
use mathlib.Core.Bool.{Bool, true, false, ◌&&◌, ◌||◌}
use mathlib.Core.List.{List, [], ◌∷◌, ◌++◌}
use codealmanac.Prelude.Tests.{◌==◌, leb, if◌then◌else◌}
use codealmanac.Prelude.Strings.{Text}

-- The white space and line terminators that `trim` and `\s` know.
abbrev pub is_space : ℕ → Bool
is_space c =
    (leb 9 c && leb c 13)
    || c == 32
    || c == 0xa0
    || c == 0x1680
    || (leb 0x2000 c && leb c 0x200a)
    || c == 0x2028
    || c == 0x2029
    || c == 0x202f
    || c == 0x205f
    || c == 0x3000
    || c == 0xfeff

-- Drops the longest prefix that passes the test.
abbrev pub drop_start : (ℕ → Bool) → Text → Text
drop_start p [] = []
drop_start p (c ∷ s) = let rest = drop_start p s in if p c then rest else c ∷ s

abbrev pub put_unless : Bool → ℕ → Text → Text
put_unless true c [] = []
put_unless false c [] = c ∷ []
put_unless b c (d ∷ s) = c ∷ d ∷ s

-- Drops the longest suffix that passes the test.
abbrev pub drop_end : (ℕ → Bool) → Text → Text
drop_end p [] = []
drop_end p (c ∷ s) = put_unless (p c) c (drop_end p s)

-- `s.trim()`
unfoldable pub trim : Text → Text
trim s = drop_end is_space (drop_start is_space s)

abbrev pub is_empty : Text → Bool
is_empty [] = true
is_empty (c ∷ s) = false

-- `c.toLowerCase()` of ASCII and of the two other characters whose lower case holds an ASCII
-- letter: U+0130 (an `i` and a combining dot) and U+212A (the Kelvin sign). Every other character
-- is left as it is.
abbrev pub to_lower_char : ℕ → Text
to_lower_char c =
    if leb b'A' c && leb c b'Z'
    then (c + 32) ∷ []
    else if c == 0x130
    then b'i' ∷ 0x307 ∷ []
    else if c == 0x212a
    then b'k' ∷ []
    else c ∷ []

-- `s.toLowerCase()` for a caller that keeps letters of ASCII only.
unfoldable pub lower_letters : Text → Text
lower_letters [] = []
lower_letters (c ∷ s) = to_lower_char c ++ lower_letters s

-- The lower case of a character between the text before it and the text behind it, as the Unicode
-- tables of the runtime have it (a final sigma is told by what is around it).
abbrev pub LowerAt : Type 0
LowerAt = Text → ℕ → Text → Text

abbrev pub lower_from : LowerAt → Text → Text → Text
lower_from lower_at before [] = []
lower_from lower_at before (c ∷ s) = lower_at before c s ++ lower_from lower_at (before ++ c ∷ []) s

-- `s.toLowerCase()`
unfoldable pub to_lower : LowerAt → Text → Text
to_lower lower_at s = lower_from lower_at [] s

-- `c.toUpperCase()` of an ASCII character
abbrev pub to_upper_char : ℕ → ℕ
to_upper_char c = if leb b'a' c && leb c b'z' then c - 32 else c

abbrev pub push_first : ℕ → List Text → List Text
push_first c [] = (c ∷ []) ∷ []
push_first c (w ∷ ws) = (c ∷ w) ∷ ws

-- `s.split(c)` at a single character
unfoldable pub split_on : ℕ → Text → List Text
split_on sep [] = [] ∷ []
split_on sep (c ∷ s) =
    let rest = split_on sep s in if c == sep then [] ∷ rest else push_first c rest

-- `parts.join(c)`
unfoldable pub join_with : ℕ → List Text → Text
join_with sep [] = []
join_with sep (w ∷ []) = w
join_with sep (w ∷ v ∷ ws) = w ++ (sep ∷ join_with sep (v ∷ ws))
