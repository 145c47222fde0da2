-- ===== src/Rooms/JoinCode/Canonical.antt =====
-- What `ParseJoinCode` and `NewJoinCode` (server/internal/modules/rooms/joincode.go) return.
use vybe.Base.{
  ℕ, zero, suc, ◌<◌, ◌≡◌, refl, ap, ◌⊎◌, inl, inr, Bool, true, false, not, ◌&&◌, ◌||◌, Option, none,
  some, List, [], ◌∷◌, arith, length, get_elem?, All, if◌then◌else◌, ◌==◌, leb, map, get_elem?-some,
}
use vybe.Base.Runes.{is_space, passes_under, passes_under-at, trim_space, trim_space-solid}
use vybe.Rooms.JoinCode.{
  crockford_alphabet, contains_rune, new_join_code, to_upper, collect, of_length, parse_join_code,
  join_code_length, prepend, place,
}

-- Six runes of Crockford's alphabet.
abbrev pub IsCode : List ℕ → Type 0
IsCode l = All (λ r. contains_rune crockford_alphabet r ≡ true) l × (length l ≡ 6)

contains_rune-lt : (r : ℕ) → contains_rune crockford_alphabet r ≡ true → r < 128
unfolding contains_rune
contains_rune-lt r h = ground arith

get_elem?-contains_rune : (l : List ℕ) (i c : ℕ) → get_elem? l i ≡ some c → contains_rune l c ≡ true
unfolding contains_rune
get_elem?-contains_rune [] i c h = cc
get_elem?-contains_rune (x ∷ l) zero c h = ground arith
get_elem?-contains_rune (x ∷ l) (suc i) c h = ground (arith, get_elem?-contains_rune l i c h)

-- What the loop has collected is spelled in the alphabet.
abbrev IsSpelled : Option (List ℕ) → Type 0
IsSpelled none = Unit {0}
IsSpelled (some code) = All (λ r. contains_rune crockford_alphabet r ≡ true) code

prepend-IsSpelled :
    (r : ℕ) (rest : Option (List ℕ))
    → contains_rune crockford_alphabet r ≡ true
    → IsSpelled rest
    → IsSpelled (prepend r rest)
prepend-IsSpelled r none h k = tt
prepend-IsSpelled r (some l) h k = (h, k)

digits_spelled :
    (contains_rune crockford_alphabet b'0' ≡ true) × (contains_rune crockford_alphabet b'1' ≡ true)
unfolding contains_rune
digits_spelled = (refl, refl)

place_cases :
    (r : ℕ) (rest : Option (List ℕ))
    → (place r rest ≡ rest)
      ⊎ (place r rest ≡ prepend b'1' rest)
      ⊎ (place r rest ≡ prepend b'0' rest)
      ⊎ (place r rest ≡ none)
      ⊎ ((contains_rune crockford_alphabet r ≡ true) × (place r rest ≡ prepend r rest))
unfolding place
place_cases r rest = ground arith

place-IsSpelled : (r : ℕ) (rest : Option (List ℕ)) → IsSpelled rest → IsSpelled (place r rest)
place-IsSpelled r rest k = elim (place_cases r rest) [
  | inl skip ↦ rw skip k
  | inr (inl one) ↦ rw one (prepend-IsSpelled b'1' rest digits_spelled.1 k)
  | inr (inr (inl nought)) ↦ rw nought (prepend-IsSpelled b'0' rest digits_spelled.0 k)
  | inr (inr (inr (inl refused))) ↦ rw refused tt
  | inr (inr (inr (inr (h, e)))) ↦ rw e (prepend-IsSpelled r rest h k)
]

-- A rune of the alphabet is no blank, in upper case, and is read as itself.
abbrev reads_itself : ℕ → Bool
reads_itself r =
    if contains_rune crockford_alphabet r
    then not (is_space r)
      && not (r == b'-' || r == b' ' || r == 9)
      && not (r == b'I' || r == b'L')
      && not (r == b'O')
      && not (r == b'U')
      && not (leb b'a' r && leb r b'z')
    else true

alphabet_table : passes_under reads_itself 128 ≡ true
unfolding passes_under contains_rune is_space
alphabet_table = refl

reads_self : (r : ℕ) → contains_rune crockford_alphabet r ≡ true → reads_itself r ≡ true
reads_self r h = passes_under-at reads_itself 128 r (contains_rune-lt r h) alphabet_table

solid : (r : ℕ) → contains_rune crockford_alphabet r ≡ true → is_space r ≡ false
solid r h = ground (arith, reads_self r h)

place_self :
    (r : ℕ) (l : List ℕ)
    → contains_rune crockford_alphabet r ≡ true
    → place r (some l) ≡ some (r ∷ l)
unfolding place
place_self r l h = ground (arith, reads_self r h)

from_length :
    (o : Option (List ℕ)) (code : List ℕ) → IsSpelled o → of_length o ≡ some code → IsCode code
from_length none code k h = cc
from_length (some l) code k h = ground arith

new_join_code-spelled :
    (n : ℕ) (draws : List ℕ)
    → length draws ≡ n
    → All (λ i. i < 32) draws
    → (code : List ℕ) × (new_join_code n (map some draws) ≡ some code)
      × All (λ r. contains_rune crockford_alphabet r ≡ true) code
      × (length code ≡ n)
unfolding new_join_code
new_join_code-spelled zero [] e h = ([], refl, tt, refl)
new_join_code-spelled zero (i ∷ draws) e h = absurd (omega arith)
new_join_code-spelled (suc n) [] e h = absurd (omega arith)
new_join_code-spelled (suc n) (i ∷ draws) e h =
    let (c, at) = get_elem?-some i crockford_alphabet h.0 in
    let (l, made, spelled, size) = new_join_code-spelled n draws (omega arith) h.1 in
    (
      c ∷ l,
      ground (arith, at, made),
      (get_elem?-contains_rune crockford_alphabet i c at, spelled),
      ap suc size,
    )

module _ (upper_rune : ℕ → ℕ) where
  collect-IsSpelled : (l : List ℕ) → IsSpelled (collect upper_rune l)
  unfolding collect
  collect-IsSpelled [] = tt
  collect-IsSpelled (x ∷ l) =
      place-IsSpelled (to_upper upper_rune x) (collect upper_rune l) (collect-IsSpelled l)

  to_upper_self : (r : ℕ) → contains_rune crockford_alphabet r ≡ true → to_upper upper_rune r ≡ r
  unfolding to_upper
  to_upper_self r h = ground (arith, reads_self r h, contains_rune-lt r h)

  collect_self :
      (l : List ℕ)
      → All (λ r. contains_rune crockford_alphabet r ≡ true) l
      → collect upper_rune l ≡ some l
  unfolding collect
  collect_self [] h = refl
  collect_self (r ∷ l) h = rw (to_upper_self r h.0, collect_self l h.1) (place_self r l h.0)

  All-solid :
      (l : List ℕ)
      → All (λ r. contains_rune crockford_alphabet r ≡ true) l
      → All (λ r. is_space r ≡ false) l
  All-solid [] h = tt
  All-solid (r ∷ l) h = (solid r h.0, All-solid l h.1)

  -- Every code that the parser returns, from any text and for any upper case of the runes beyond ASCII, is
  -- six runes of the alphabet.
  pub parse_join_code-IsCode :
      (raw code : List ℕ) → parse_join_code upper_rune raw ≡ some code → IsCode code
  unfolding parse_join_code
  parse_join_code-IsCode raw code h =
      from_length (collect upper_rune (trim_space raw)) code (collect-IsSpelled (trim_space raw)) h

  -- A canonical code is read as itself, so parsing is idempotent.
  pub parse_join_code-code :
      (code : List ℕ) → IsCode code → parse_join_code upper_rune code ≡ some code
  unfolding parse_join_code
  parse_join_code-code code (spelled, six) =
      rw (trim_space-solid code (All-solid code spelled), collect_self code spelled) (rw six refl)

  -- Every code that the generator makes of six draws below 32 exists, and the parser returns it unchanged.
  pub new_join_code-parses :
      (draws : List ℕ)
      → length draws ≡ 6
      → All (λ i. i < 32) draws
      → (code : List ℕ) × (new_join_code join_code_length (map some draws) ≡ some code)
        × (parse_join_code upper_rune code ≡ some code)
  new_join_code-parses draws six h =
      let (code, made, spelled, size) = new_join_code-spelled 6 draws six h in
      (code, made, parse_join_code-code code (spelled, size))
