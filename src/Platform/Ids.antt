-- ===== src/Platform/Ids.antt =====
-- UUIDv7 ids (server/internal/platform/ids/uuidv7.go). A UUID is the list of its bytes, a text the list of
-- its bytes too, and the random source gives 16 bytes, `none` where it fails. The clock is the number of
-- milliseconds since 1970, negative before.
pub mod Order
pub mod Text
use vybe.Base.{
  ℕ, ◌+◌, ◌-◌, ◌*◌, ◌/◌, ◌%◌, ◌^◌, Bool, true, false, not, ◌&&◌, ◌||◌, Option, none, some, List, [],
  ◌∷◌, ◌++◌, if◌then◌else◌, ltb, leb, ◌==◌, length, get_elem?, take, drop, suc, zero,
}
use vybe.Base.Int.{ℤ, pos, pos_part, ltb_ℤ, eqb_ℤ}
use vybe.Base.Bytes.{bytes_eq}

pub record Generator : Type 0 where
  pub last_ms : ℕ
  pub counter : ℕ

abbrev pub default_gen : Generator
default_gen = record { last_ms = 0; counter = 0 }

-- The next of the counter, a uint16, or the next millisecond once its 12 bits are used up.
unfoldable pub counted_on : Generator → Generator
counted_on g =
    let counter = (g.counter + 1) % 65536 in
    if ltb 0x0fff counter
    then record { last_ms = g.last_ms + 1; counter = 0 }
    else record { last_ms = g.last_ms; counter = counter }

-- The `switch` on the clock; `seed` is the two bytes that a new millisecond starts its counter from.
unfoldable pub tick : Generator → ℤ → ℕ → Generator
tick g now seed =
    if ltb_ℤ (pos g.last_ms) now
    then record { last_ms = pos_part now; counter = seed % 0x0800 }
    else if eqb_ℤ now (pos g.last_ms)
    then counted_on g
    else counted_on g

abbrev or_zero : Option ℕ → ℕ
or_zero none = 0
or_zero (some b) = b

abbrev pub byte_at : List ℕ → ℕ → ℕ
byte_at u i = or_zero (get_elem? u i)

-- The bytes of an id: the or of disjoint bits is their sum.
unfoldable pub layout : ℕ → ℕ → List ℕ → List ℕ
layout ms counter random =
    (ms / 0x10000000000) % 256
    ∷ (ms / 0x100000000) % 256
    ∷ (ms / 0x1000000) % 256
    ∷ (ms / 0x10000) % 256
    ∷ (ms / 0x100) % 256
    ∷ ms % 256
    ∷ (0x70 + counter / 256 % 16)
    ∷ counter % 256
    ∷ (0x80 + byte_at random 8 % 64)
    ∷ drop 9 random

unfoldable pub next_from : Generator → ℤ → List ℕ → Generator × List ℕ
next_from g now random =
    let after = tick g now (byte_at random 6 * 256 + byte_at random 7) in
    (after, layout after.last_ms after.counter random)

-- `none` is an error of the random source, before the generator changes.
unfoldable pub next : Generator → ℤ → Option (List ℕ) → Option (Generator × List ℕ)
next g now none = none
next g now (some random) = some (next_from g now random)

unfoldable pub timestamp : List ℕ → ℕ
timestamp u =
    byte_at u 0 * 0x10000000000
    + byte_at u 1 * 0x100000000
    + byte_at u 2 * 0x1000000
    + byte_at u 3 * 0x10000
    + byte_at u 4 * 0x100
    + byte_at u 5

unfoldable pub version : List ℕ → ℕ
version u = byte_at u 6 / 16

abbrev pub hex : ℕ → ℕ
hex d = if ltb d 10 then b'0' + d else b'a' + d - 10

abbrev pub is_hyphen_before : ℕ → Bool
is_hyphen_before b = b == 4 || b == 6 || b == 8 || b == 10

-- The loop of `String` from a byte on.
unfoldable pub render : ℕ → List ℕ → List ℕ
render b [] = []
render b (x ∷ l) =
    let rest = hex (x / 16) ∷ hex (x % 16) ∷ render (suc b) l in
    if is_hyphen_before b then 45 ∷ rest else rest

unfoldable pub string : List ℕ → List ℕ
string u = render 0 u

unfoldable pub unhex : ℕ → Option ℕ
unhex c =
    if leb b'0' c && leb c b'9'
    then some (c - b'0')
    else if leb b'a' c && leb c b'f'
    then some (c - b'a' + 10)
    else if leb b'A' c && leb c b'F'
    then some (c - b'A' + 10)
    else none

abbrev pub joined : Option ℕ → Option ℕ → Option (List ℕ) → Option (List ℕ)
joined (some hi) (some lo) (some l) = some ((hi * 16 + lo) ∷ l)
joined _ _ _ = none

-- The bytes of a span of digits, two for each.
unfoldable pub parse_span : List ℕ → Option (List ℕ)
parse_span [] = some []
parse_span (c ∷ []) = none
parse_span (c ∷ d ∷ l) = joined (unhex c) (unhex d) (parse_span l)

abbrev pub span : ℕ → ℕ → List ℕ → List ℕ
span start n s = take n (drop start s)

abbrev pub both : Option (List ℕ) → Option (List ℕ) → Option (List ℕ)
both (some a) (some b) = some (a ++ b)
both _ _ = none

-- `none` is an error.
unfoldable pub parse : List ℕ → Option (List ℕ)
parse s =
    if not (length s == 36)
    then none
    else if not
        (byte_at s 8 == 45 && byte_at s 13 == 45 && byte_at s 18 == 45 && byte_at s 23 == 45)
    then none
    else both (parse_span (span 0 8 s)) (
        both (parse_span (span 9 4 s)) (
          both (parse_span (span 14 4 s))
            (both (parse_span (span 19 4 s)) (parse_span (span 24 12 s)))))

abbrev nil_uuid : List ℕ
nil_uuid = 0 ∷ 0 ∷ 0 ∷ 0 ∷ 0 ∷ 0 ∷ 0 ∷ 0 ∷ 0 ∷ 0 ∷ 0 ∷ 0 ∷ 0 ∷ 0 ∷ 0 ∷ 0 ∷ []

unfoldable pub is_nil : List ℕ → Bool
is_nil u = bytes_eq u nil_uuid

-- What a driver hands to `Scan`: `other` is any other type.
pub data Source : Type 0 where
  null : Source
  array bytes text : List ℕ → Source
  other : Source

-- `none` is an error.
unfoldable pub scan : Source → Option (List ℕ)
scan Source.null = some nil_uuid
scan (Source.array v) = some v
scan (Source.bytes v) = if length v == 16 then some v else parse v
scan (Source.text v) = parse v
scan Source.other = none
