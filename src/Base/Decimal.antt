-- ===== src/Base/Decimal.antt =====
-- Decimal numerals, as `strconv.Atoi` reads them and `%d` of `fmt` writes them: texts are their bytes.
use mathlib.Core.Path.{◌≡◌, ap, ◌∙◌}
use mathlib.Core.Logic.{inl, inr}
use mathlib.Core.Bool.{Bool, true, false, ◌&&◌}
use mathlib.Core.List.{List, [], ◌∷◌}
use mathlib.Core.Option.{Option, none, some}
use Prim.Native.Nat.{ℕ, zero, suc, ◌+◌, ◌-◌, ◌*◌, ◌/◌, ◌%◌, ◌≤◌, ◌<◌}
use native.Mathlib.Omega.{arith}
use vybe.Base.Tests.{ltb, leb, ◌==◌, if◌then◌else◌, Bool-cases}
use vybe.Base.Int.{ℤ, pos, sub_ℕ}

-- `strconv.Atoi`: digits after an optional sign, within 64 bits.
unfoldable pub digits_from : ℕ → List ℕ → Option ℕ
digits_from n [] = some n
digits_from n (c ∷ l) =
    let rest = digits_from (n * 10 + (c - b'0')) l in
    if leb b'0' c && leb c b'9' then rest else none

abbrev unsigned : List ℕ → Option ℕ
unsigned [] = none
unsigned (c ∷ l) = digits_from 0 (c ∷ l)

abbrev in_range : Bool → Option ℕ → Option ℤ
in_range negative none = none
in_range false (some n) = if ltb n 0x8000000000000000 then some (pos n) else none
in_range true (some n) = if leb n 0x8000000000000000 then some (sub_ℕ 0 n) else none

unfoldable pub atoi : List ℕ → Option ℤ
atoi [] = none
atoi (c ∷ l) =
    if c == b'-'
    then in_range true (unsigned l)
    else if c == b'+'
    then in_range false (unsigned l)
    else in_range false (unsigned (c ∷ l))

-- The digits of a number before a text, on fuel.
unfoldable pub decimal_from : ℕ → ℕ → List ℕ → List ℕ
decimal_from zero n l = l
decimal_from (suc fuel) n l = elim (ltb n 10) [
  | true ↦ (b'0' + n % 10) ∷ l
  | false ↦ decimal_from fuel (n / 10) ((b'0' + n % 10) ∷ l)
]

-- `%d` of a number that is not negative.
unfoldable pub decimal : ℕ → List ℕ
decimal n = decimal_from (suc n) n []

digits_from-digit :
    (n d : ℕ) (l : List ℕ) → d < 10 → digits_from n ((b'0' + d) ∷ l) ≡ digits_from (n * 10 + d) l
unfolding digits_from
digits_from-digit n d l h = ground (arith, h)

digits_from-decimal_from :
    (fuel n : ℕ) (l : List ℕ) → n < fuel → digits_from 0 (decimal_from fuel n l) ≡ digits_from n l
unfolding decimal_from
digits_from-decimal_from zero n l h = absurd (omega (arith, h))
digits_from-decimal_from (suc fuel) n l h = elim (Bool-cases (ltb n 10)) [
  | inl small ↦
      let one : 0 * 10 + n % 10 ≡ n = ground (arith, small) in
      rw (decimal_from, small)
        (digits_from-digit 0 (n % 10) l (omega arith) ∙ ap (λ k. digits_from k l) one)
  | inr large ↦
      let more : 10 ≤ n = ground (arith, large) in
      let whole : n / 10 * 10 + n % 10 ≡ n = omega arith in
      rw (decimal_from, large)
        (digits_from-decimal_from fuel (n / 10) ((b'0' + n % 10) ∷ l) (omega (arith, more, h))
          ∙ digits_from-digit (n / 10) (n % 10) l (omega arith)
          ∙ ap (λ k. digits_from k l) whole)
]

-- The fuel is enough: a numeral that was written reads back as its number.
pub digits_from-decimal : (n : ℕ) → digits_from 0 (decimal n) ≡ some n
unfolding decimal digits_from
digits_from-decimal n = digits_from-decimal_from (suc n) n [] (omega arith)
