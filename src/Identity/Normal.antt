-- ===== src/Identity/Normal.antt =====
-- The normalisation of emails, handles, platforms and optional texts
-- (server/internal/modules/identity/service.go). A raw text is its runes, the result its bytes; the lower
-- case of a rune outside ASCII is a parameter.
pub mod Handles
use vybe.Base.{
  ℕ, ◌+◌, ◌-◌, Bool, true, false, not, ◌&&◌, ◌||◌, Option, none, some, List, [], ◌∷◌, ◌++◌, map,
  if◌then◌else◌, leb, ltb, ◌==◌, length, drop, zero, suc,
}
use vybe.Base.Bytes.{bytes_eq}
use vybe.Base.Json.{utf8, runes_of}
use vybe.Base.Runes.{trim_space}

unfoldable pub bytes_of : List ℕ → List ℕ
bytes_of [] = []
bytes_of (r ∷ l) = utf8 r ++ bytes_of l

unfoldable pub to_lower : (ℕ → ℕ) → ℕ → ℕ
to_lower lower_rune r =
    if leb b'A' r && leb r b'Z' then r + 32 else if ltb r 128 then r else lower_rune r

-- `strings.ToLower(strings.TrimSpace(raw))`
unfoldable pub folded : (ℕ → ℕ) → List ℕ → List ℕ
folded lower_rune raw = bytes_of (map (to_lower lower_rune) (trim_space raw))

-- `strings.IndexByte`, none for -1.
unfoldable pub index_byte : List ℕ → ℕ → Option ℕ
index_byte [] b = none
index_byte (c ∷ l) b =
    if c == b then some 0 else elim (index_byte l b) [ none ↦ none | some i ↦ some (suc i) ]

unfoldable pub contains_byte : List ℕ → ℕ → Bool
contains_byte [] b = false
contains_byte (c ∷ l) b = c == b || contains_byte l b

unfoldable pub has_blank : List ℕ → Bool
has_blank e = contains_byte e 32 || contains_byte e 9 || contains_byte e 13 || contains_byte e 10

-- What follows the first `@`.
abbrev pub domain_ok : List ℕ → ℕ → Bool
domain_ok e at =
    not (at == 0)
    && not (at == length e - 1)
    && not (contains_byte (drop (at + 1) e) b'@')
    && contains_byte (drop (at + 1) e) b'.'
    && not (ltb 254 (length e))
    && not (has_blank e)

abbrev pub email_at : Option ℕ → List ℕ → Option (List ℕ)
email_at none e = none
email_at (some at) e = if domain_ok e at then some e else none

-- `none` is ErrInvalidEmail.
unfoldable pub normalise_email : (ℕ → ℕ) → List ℕ → Option (List ℕ)
normalise_email lower_rune raw =
    let e = folded lower_rune raw in if bytes_eq e [] then none else email_at (index_byte e b'@') e

abbrev pub min_handle_length : ℕ
min_handle_length = 3

abbrev pub max_handle_length : ℕ
max_handle_length = 30

abbrev pub is_separator : ℕ → Bool
is_separator c = c == b'_' || c == b'.'

abbrev pub is_plain : ℕ → Bool
is_plain c = leb b'a' c && leb c b'z' || leb b'0' c && leb c b'9'

-- A separator with nothing after it.
abbrev pub at_end : List ℕ → Bool
at_end [] = true
at_end (c ∷ l) = false

-- The loop of `NormaliseHandle` after a byte, none at the start.
unfoldable pub handle_from : Option ℕ → List ℕ → Bool
handle_from prev [] = true
handle_from prev (c ∷ l) =
    let rest = handle_from (some c) l in
    if is_plain c
    then rest
    else if is_separator c
    then not (at_end l) && follows_plain prev && rest
    else false
  where
    follows_plain : Option ℕ → Bool
    follows_plain none = false
    follows_plain (some p) = not (is_separator p)

-- `none` is ErrInvalidHandle.
unfoldable pub normalise_handle : (ℕ → ℕ) → List ℕ → Option (List ℕ)
normalise_handle lower_rune raw =
    let h = folded lower_rune raw in
    if ltb (length h) min_handle_length || ltb max_handle_length (length h)
    then none
    else if handle_from none h
    then some h
    else none

unfoldable pub normalise_platform : (ℕ → ℕ) → List ℕ → List ℕ
normalise_platform lower_rune p =
    let q = folded lower_rune p in
    if bytes_eq q (runes_of "android")
    then runes_of "android"
    else if bytes_eq q (runes_of "ios")
    then runes_of "ios"
    else if bytes_eq q (runes_of "web")
    then runes_of "web"
    else runes_of "unknown"

unfoldable pub or_default : List ℕ → List ℕ → List ℕ
or_default v fallback = if bytes_eq (trim_space v) [] then fallback else v
