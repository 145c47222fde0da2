-- ===== src/Platform/Ids/Text.antt =====
-- The text of an id and back (server/internal/platform/ids/uuidv7.go).
use vybe.Base.{ℕ, ◌+◌, ◌*◌, ◌/◌, ◌%◌, ◌<◌, ◌≡◌, refl, ap, ◌∙◌, some, List, [], ◌∷◌, arith, All}
use vybe.Platform.Ids.{hex, unhex, both, parse_span, string, render, parse}

unhex-hex : (d : ℕ) → d < 16 → unhex (hex d) ≡ some d
unfolding unhex
unhex-hex d h = ground arith

abbrev pub IsBytes : List ℕ → Type 0
IsBytes = All (λ b. b < 256)

abbrev digits : List ℕ → List ℕ
digits [] = []
digits (x ∷ l) = hex (x / 16) ∷ hex (x % 16) ∷ digits l

parse_span-digits : (l : List ℕ) → IsBytes l → parse_span (digits l) ≡ some l
unfolding parse_span
parse_span-digits [] h = refl
parse_span-digits (x ∷ l) h =
    let hi = unhex-hex (x / 16) (omega (arith, h.0)) in
    let lo = unhex-hex (x % 16) (omega arith) in
    let whole : x / 16 * 16 + x % 16 ≡ x = omega arith in
    rw (hi, lo, parse_span-digits l h.1) (ap (λ b. some (b ∷ l)) whole)

-- The text of any 16 bytes reads back as them.
pub parse-string :
    (a b c d e f g h i j k l m n o p : ℕ)
    → IsBytes (a ∷ b ∷ c ∷ d ∷ [])
    → IsBytes (e ∷ f ∷ [])
    → IsBytes (g ∷ h ∷ [])
    → IsBytes (i ∷ j ∷ [])
    → IsBytes (k ∷ l ∷ m ∷ n ∷ o ∷ p ∷ [])
    → let u = a ∷ b ∷ c ∷ d ∷ e ∷ f ∷ g ∷ h ∷ i ∷ j ∷ k ∷ l ∷ m ∷ n ∷ o ∷ p ∷ [] in
      parse (string u) ≡ some u
unfolding parse string render
parse-string a b c d e f g h i j k l m n o p s t u v w =
    ap
      (λ x. both x (
        both (parse_span (digits (e ∷ f ∷ []))) (
          both (parse_span (digits (g ∷ h ∷ []))) (
            both (parse_span (digits (i ∷ j ∷ [])))
              (parse_span (digits (k ∷ l ∷ m ∷ n ∷ o ∷ p ∷ [])))))))
      (parse_span-digits (a ∷ b ∷ c ∷ d ∷ []) s)
    ∙ rw
        (
          parse_span-digits (e ∷ f ∷ []) t,
          parse_span-digits (g ∷ h ∷ []) u,
          parse_span-digits (i ∷ j ∷ []) v,
          parse_span-digits (k ∷ l ∷ m ∷ n ∷ o ∷ p ∷ []) w,
        )
        refl
