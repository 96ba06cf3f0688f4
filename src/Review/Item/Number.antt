-- ===== src/Review/Item/Number.antt =====
-- `String(n)` of a natural number.
use Prim.Native.Nat.{◌*◌, ◌/◌, ◌%◌, ◌-◌, ◌<◌}
use codealmanac.Prelude.{
  ℕ, zero, suc, ◌+◌, ◌≡◌, refl, sym, ap, ◌∙◌, [], ◌∷◌, ◌++◌, Text, arith, ltb, if◌then◌else◌,
}

-- The digits, on fuel.
unfoldable pub emit : ℕ → ℕ → Text
emit zero n = []
emit (suc fuel) n =
    let front = emit fuel (n / 10) in
    if ltb n 10 then (b'0' + n) ∷ [] else front ++ (b'0' + n % 10) ∷ []

unfoldable pub decimal : ℕ → Text
unfolding emit
decimal n = emit (suc n) n

value : ℕ → Text → ℕ
value acc [] = acc
value acc (c ∷ s) = value (acc * 10 + (c - b'0')) s

value-snoc : (acc : ℕ) (s : Text) (c : ℕ) → value acc (s ++ c ∷ []) ≡ value acc s * 10 + (c - b'0')
unfolding value
value-snoc acc [] c = refl
value-snoc acc (d ∷ s) c = value-snoc (acc * 10 + (d - b'0')) s c

-- More fuel than the number is enough.
value-emit : (fuel n : ℕ) → n < fuel → value 0 (emit fuel n) ≡ n
unfolding value emit
value-emit zero n h = absurd (omega arith)
value-emit (suc fuel) n h =
    ground (arith, value-snoc 0 (emit fuel (n / 10)) (b'0' + n % 10), value-emit fuel (n / 10))

pub decimal_injective : (n m : ℕ) → decimal n ≡ decimal m → n ≡ m
unfolding decimal
decimal_injective n m h =
    sym (value-emit (suc n) n (omega arith)) ∙ ap (value 0) h ∙ value-emit (suc m) m (omega arith)
