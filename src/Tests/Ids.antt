-- ===== src/Tests/Ids.antt =====
-- Two ids of one millisecond after a clock that steps back (server/internal/platform/ids/uuidv7.go).
use vybe.Base.{ℕ, ◌≡◌, refl, true, some, List, [], ◌∷◌, ◌++◌, arith}
use vybe.Base.Int.{pos}
use vybe.Platform.Ids.{Generator, next_from, tick, counted_on, parse, string, unhex, parse_span}
use vybe.Platform.Ids.Order.{bytes_ltb, mint_all, next_from-bytes_ltb}
use vybe.Platform.Ids.Text.{parse-string}

abbrev random : List ℕ
random = 1 ∷ 2 ∷ 3 ∷ 4 ∷ 5 ∷ 6 ∷ 255 ∷ 255 ∷ 9 ∷ 10 ∷ 11 ∷ 12 ∷ 13 ∷ 14 ∷ 15 ∷ 16 ∷ []

abbrev full : Generator
full = record { last_ms = 1_700_000_000_000; counter = 0x0fff }

next_from-bytes_ltb_example :
    let first = next_from full (pos 1_700_000_000_000) random in
    let last =
      next_from
        (mint_all first.0 ((pos 1_600_000_000_000, random) ∷ []))
        (pos 1_700_000_000_001)
        [] in
    bytes_ltb first.1 last.1 ≡ true
unfolding next_from tick counted_on mint_all
next_from-bytes_ltb_example =
    next_from-bytes_ltb full (pos 1_700_000_000_000) (pos 1_700_000_000_001) random []
      ((pos 1_600_000_000_000, random) ∷ []) (omega arith) (omega arith)

parse-string_example : parse (string random) ≡ some random
parse-string_example =
    parse-string 1 2 3 4 5 6 255 255 9 10 11 12 13 14 15 16
      (omega arith, (omega arith, (omega arith, (omega arith, tt))))
      (omega arith, (omega arith, tt)) (omega arith, (omega arith, tt))
      (omega arith, (omega arith, tt))
      (omega arith, (omega arith, (omega arith, (omega arith, (omega arith, (omega arith, tt))))))

abbrev but_two : List ℕ
but_two =
    48 ∷ 48 ∷ 48 ∷ 48 ∷ 48 ∷ 48 ∷ 48 ∷ 48 ∷ 45 ∷ 48 ∷ 48 ∷ 48 ∷ 48 ∷ 45 ∷ 48 ∷ 48 ∷ 48 ∷ 48 ∷ 45
    ∷ 48 ∷ 48 ∷ 48 ∷ 48 ∷ 45 ∷ 48 ∷ 48 ∷ 48 ∷ 48 ∷ 48 ∷ 48 ∷ 48 ∷ 48 ∷ 48 ∷ 48 ∷ []

abbrev of_171 : List ℕ
of_171 = 0 ∷ 0 ∷ 0 ∷ 0 ∷ 0 ∷ 0 ∷ 0 ∷ 0 ∷ 0 ∷ 0 ∷ 0 ∷ 0 ∷ 0 ∷ 0 ∷ 0 ∷ 171 ∷ []

-- Two texts of one id, that end in "ab" and in "AB".
two_spellings :
    (parse (but_two ++ 97 ∷ 98 ∷ []) ≡ some of_171)
    × (parse (but_two ++ 65 ∷ 66 ∷ []) ≡ some of_171)
unfolding parse parse_span unhex
two_spellings = (refl, refl)
