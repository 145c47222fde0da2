-- ===== src/Base/Runes.antt =====
-- Texts as lists of runes, and what the server uses of Go's `strings` and `unicode` on them. Invalid
-- UTF-8 has no rune; the upper case of a rune outside ASCII is a parameter of its users.
use mathlib.Core.Path.{◌≡◌, refl}
use mathlib.Core.Bool.{Bool, true, false, ◌&&◌, ◌||◌}
use mathlib.Core.List.{List, [], ◌∷◌}
use Prim.Native.Nat.{ℕ, zero, suc, ◌<◌}
use native.Mathlib.Omega.{arith}
use vybe.Base.Tests.{leb, ◌==◌, if◌then◌else◌}
use vybe.Base.Lists.{All}

-- `unicode.IsSpace`
unfoldable pub is_space : ℕ → Bool
is_space r =
    leb 9 r && leb r 13
    || r == 32
    || r == 0x85
    || r == 0xa0
    || r == 0x1680
    || leb 0x2000 r && leb r 0x200a
    || r == 0x2028
    || r == 0x2029
    || r == 0x202f
    || r == 0x205f
    || r == 0x3000

unfoldable pub trim_left : List ℕ → List ℕ
trim_left [] = []
trim_left (r ∷ l) = elim (is_space r) [ true ↦ trim_left l | false ↦ r ∷ l ]

abbrev pub keep_unless_blank : ℕ → List ℕ → List ℕ
keep_unless_blank r [] = if is_space r then [] else r ∷ []
keep_unless_blank r (x ∷ l) = r ∷ x ∷ l

unfoldable pub trim_right : List ℕ → List ℕ
trim_right [] = []
trim_right (r ∷ l) = keep_unless_blank r (trim_right l)

-- `strings.TrimSpace`
unfoldable pub trim_space : List ℕ → List ℕ
unfolding trim_left trim_right
trim_space l = trim_right (trim_left l)

-- Evaluation over a small range: a test passes at every rune under a bound.
unfoldable pub passes_under : (ℕ → Bool) → ℕ → Bool
passes_under test zero = true
passes_under test (suc bound) = if test bound then passes_under test bound else false

pub passes_under-at :
    (test : ℕ → Bool) (bound r : ℕ) → r < bound → passes_under test bound ≡ true → test r ≡ true
unfolding passes_under
passes_under-at test zero r below all = absurd (omega arith)
passes_under-at test (suc bound) r below all = ground (arith, passes_under-at test bound r)

trim_left-solid : (l : List ℕ) → All (λ r. is_space r ≡ false) l → trim_left l ≡ l
unfolding trim_left
trim_left-solid [] h = refl
trim_left-solid (r ∷ l) h = ground arith

trim_right-solid : (l : List ℕ) → All (λ r. is_space r ≡ false) l → trim_right l ≡ l
unfolding trim_right
trim_right-solid [] h = refl
trim_right-solid (r ∷ l) h = ground (arith, trim_right-solid l h.1)

pub trim_space-solid : (l : List ℕ) → All (λ r. is_space r ≡ false) l → trim_space l ≡ l
unfolding trim_space
trim_space-solid l h = rw (trim_left-solid l h) (trim_right-solid l h)
