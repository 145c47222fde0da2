-- ===== src/Rooms/JoinCode.antt =====
-- Join codes (server/internal/modules/rooms/joincode.go). A text is the list of its runes; the random
-- source is a list of draws, `none` where a draw fails.
pub mod Canonical
use vybe.Base.{
  ℕ, zero, suc, ◌-◌, Bool, true, false, ◌&&◌, ◌||◌, Option, none, some, List, [], ◌∷◌, ◌++◌, map,
  if◌then◌else◌, leb, ltb, ◌==◌, length, get_elem?,
}
use vybe.Base.Runes.{trim_space}

abbrev pub join_code_length : ℕ
join_code_length = 6

-- "0123456789ABCDEFGHJKMNPQRSTVWXYZ"
abbrev pub crockford_alphabet : List ℕ
crockford_alphabet =
    48 ∷ 49 ∷ 50 ∷ 51 ∷ 52 ∷ 53 ∷ 54 ∷ 55 ∷ 56 ∷ 57 ∷ 65 ∷ 66 ∷ 67 ∷ 68 ∷ 69 ∷ 70 ∷ 71 ∷ 72 ∷ 74
    ∷ 75 ∷ 77 ∷ 78 ∷ 80 ∷ 81 ∷ 82 ∷ 83 ∷ 84 ∷ 86 ∷ 87 ∷ 88 ∷ 89 ∷ 90 ∷ []

unfoldable pub contains_rune : List ℕ → ℕ → Bool
contains_rune [] r = false
contains_rune (x ∷ l) r = r == x || contains_rune l r

-- The loop of `NewJoinCode`, over the draws from 0 to 31.
unfoldable pub new_join_code : ℕ → List (Option ℕ) → Option (List ℕ)
new_join_code zero draws = some []
new_join_code (suc n) [] = none
new_join_code (suc n) (none ∷ draws) = none
new_join_code (suc n) (some i ∷ draws) = elim (get_elem? crockford_alphabet i) [
  | none ↦ none
  | some c ↦ elim (new_join_code n draws) [ none ↦ none | some l ↦ some (c ∷ l) ]
]

abbrev pub prepend : ℕ → Option (List ℕ) → Option (List ℕ)
prepend c none = none
prepend c (some l) = some (c ∷ l)

-- The `switch` of `ParseJoinCode` on one rune, before what the rest of the text gives.
unfoldable pub place : ℕ → Option (List ℕ) → Option (List ℕ)
place r rest =
    if r == b'-' || r == b' ' || r == 9
    then rest
    else if r == b'I' || r == b'L'
    then prepend b'1' rest
    else if r == b'O'
    then prepend b'0' rest
    else if r == b'U'
    then none
    else if contains_rune crockford_alphabet r
    then prepend r rest
    else none

abbrev pub of_length : Option (List ℕ) → Option (List ℕ)
of_length none = none
of_length (some code) = if length code == join_code_length then some code else none

module _ (upper_rune : ℕ → ℕ) where
  -- `unicode.ToUpper`: ASCII as it is, `upper_rune` beyond.
  unfoldable pub to_upper : ℕ → ℕ
  to_upper r = if leb b'a' r && leb r b'z' then r - 32 else if ltb r 128 then r else upper_rune r

  -- The loop of `ParseJoinCode` over the upper-cased runes: `none` once a rune is refused.
  unfoldable pub collect : List ℕ → Option (List ℕ)
  collect [] = some []
  collect (raw ∷ l) = place (to_upper raw) (collect l)

  -- `none` is ErrInvalidJoinCode.
  unfoldable pub parse_join_code : List ℕ → Option (List ℕ)
  unfolding collect
  parse_join_code raw = of_length (collect (trim_space raw))

-- "https://vybe.app/r/" before the code.
unfoldable pub share_url : List ℕ → List ℕ
share_url code =
    b'h' ∷ b't' ∷ b't' ∷ b'p' ∷ b's' ∷ b':' ∷ b'/' ∷ b'/' ∷ b'v' ∷ b'y' ∷ b'b' ∷ b'e' ∷ b'.' ∷ b'a'
    ∷ b'p' ∷ b'p' ∷ b'/' ∷ b'r' ∷ b'/' ∷ code
