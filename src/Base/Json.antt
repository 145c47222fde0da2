-- ===== src/Base/Json.antt =====
-- What the server uses of Go's `encoding/json`: an object of strings as the bytes that `Marshal` writes.
use mathlib.Core.Bool.{◌||◌}
use mathlib.Core.List.{List, [], ◌∷◌, ◌++◌}
use Prim.Native.Nat.{ℕ, ◌+◌, ◌-◌, ◌/◌, ◌%◌}
use Prim.Native.Char.{code}
use Prim.Native.String.{String}
use vybe.Base.Tests.{ltb, ◌==◌, if◌then◌else◌}

unfoldable pub runes_of : String → List ℕ
runes_of String.[] = []
runes_of (String.◌∷◌ c s) = code c ∷ runes_of s

-- `utf8.AppendRune`
unfoldable pub utf8 : ℕ → List ℕ
utf8 r =
    if ltb r 0x80
    then r ∷ []
    else if ltb r 0x800
    then (0xc0 + r / 0x40) ∷ (0x80 + r % 0x40) ∷ []
    else if ltb r 0x10000
    then (0xe0 + r / 0x1000) ∷ (0x80 + r / 0x40 % 0x40) ∷ (0x80 + r % 0x40) ∷ []
    else (0xf0 + r / 0x40000)
      ∷ (0x80 + r / 0x1000 % 0x40)
      ∷ (0x80 + r / 0x40 % 0x40)
      ∷ (0x80 + r % 0x40)
      ∷ []

abbrev hex : ℕ → ℕ
hex d = if ltb d 10 then b'0' + d else b'a' + d - 10

-- \uXXXX
abbrev escaped : ℕ → List ℕ
escaped r =
    92
    ∷ b'u'
    ∷ hex (r / 0x1000)
    ∷ hex (r / 0x100 % 0x10)
    ∷ hex (r / 0x10 % 0x10)
    ∷ hex (r % 0x10)
    ∷ []

-- A rune within a string: HTML characters and line separators are escaped too.
unfoldable pub json_rune : ℕ → List ℕ
json_rune r =
    if r == 34 || r == 92
    then 92 ∷ r ∷ []
    else if r == 8
    then 92 ∷ b'b' ∷ []
    else if r == 12
    then 92 ∷ b'f' ∷ []
    else if r == 10
    then 92 ∷ b'n' ∷ []
    else if r == 13
    then 92 ∷ b'r' ∷ []
    else if r == 9
    then 92 ∷ b't' ∷ []
    else if ltb r 32 || r == 60 || r == 62 || r == 38 || r == 0x2028 || r == 0x2029
    then escaped r
    else utf8 r

unfoldable pub json_runes : List ℕ → List ℕ
json_runes [] = 34 ∷ []
json_runes (r ∷ l) = json_rune r ++ json_runes l

abbrev json_string : String → List ℕ
json_string s = 34 ∷ json_runes (runes_of s)

abbrev json_member : String × String → List ℕ
json_member (k, v) = json_string k ++ 58 ∷ json_string v

unfoldable pub json_members : List (String × String) → List ℕ
json_members [] = 125 ∷ []
json_members (m ∷ l) = 44 ∷ json_member m ++ json_members l

-- `json.Marshal` of a map whose keys are given in order.
unfoldable pub json_object : List (String × String) → List ℕ
json_object [] = 123 ∷ 125 ∷ []
json_object (m ∷ l) = 123 ∷ json_member m ++ json_members l
