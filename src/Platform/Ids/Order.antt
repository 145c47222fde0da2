-- ===== src/Platform/Ids/Order.antt =====
-- The order of the ids of one generator (server/internal/platform/ids/uuidv7.go).
use vybe.Base.{
  ℕ, ◌+◌, ◌*◌, ◌/◌, ◌%◌, ◌≤◌, ◌<◌, ◌≡◌, ◌⊎◌, inl, inr, refl, sym, ap, ◌∙◌, Bool, true, false, ◌&&◌,
  ◌||◌, List, [], ◌∷◌, arith, ltb, ◌==◌, lt→ltb, ==_iff, Bool-cases,
}
use vybe.Base.Int.{ℤ, pos, ltb_ℤ, eqb_ℤ}
use vybe.Platform.Ids.{Generator, counted_on, tick, layout, byte_at, next_from, timestamp, version}

-- A generator's counter has 12 bits.
abbrev pub IsWithin : Generator → Type 0
IsWithin g = g.counter < 0x1000

-- The next id of a generator has a later millisecond, or the same and a higher counter.
abbrev pub Follows : Generator → Generator → Type 0
Follows g h = (g.last_ms < h.last_ms) ⊎ ((g.last_ms ≡ h.last_ms) × (g.counter < h.counter))

counted_on-Follows :
    (g : Generator) → IsWithin g → Follows g (counted_on g) × IsWithin (counted_on g)
unfolding counted_on
counted_on-Follows g v = ground arith

tick-Follows :
    (g : Generator) (now : ℤ) (seed : ℕ)
    → IsWithin g
    → Follows g (tick g now seed) × IsWithin (tick g now seed)
unfolding tick
tick-Follows g now seed v = elim (Bool-cases (ltb_ℤ (pos g.last_ms) now)) [
  | inl later ↦ rw later (inl (ground (arith, later)), omega arith)
  | inr not_later ↦ elim (Bool-cases (eqb_ℤ now (pos g.last_ms))) [
    | inl same ↦ rw (not_later, same) (counted_on-Follows g v)
    | inr earlier ↦ rw (not_later, earlier) (counted_on-Follows g v)
  ]
]

-- The order of byte strings, of Postgres and of the texts of ids.
unfoldable pub bytes_ltb : List ℕ → List ℕ → Bool
bytes_ltb [] [] = false
bytes_ltb [] (y ∷ ys) = true
bytes_ltb (x ∷ xs) [] = false
bytes_ltb (x ∷ xs) (y ∷ ys) = ltb x y || (x == y) && bytes_ltb xs ys

bytes_ltb-first : (x y : ℕ) (xs ys : List ℕ) → x < y → bytes_ltb (x ∷ xs) (y ∷ ys) ≡ true
unfolding bytes_ltb
bytes_ltb-first x y xs ys h = rw (lt→ltb x y h) refl

bytes_ltb-rest :
    (x y : ℕ) (xs ys : List ℕ) → x ≡ y → bytes_ltb xs ys ≡ true → bytes_ltb (x ∷ xs) (y ∷ ys) ≡ true
unfolding bytes_ltb
bytes_ltb-rest x y xs ys e h = rw (h, (==_iff x y).1 e) ground arith

-- One digit of two numbers that agree above it, with the digits below.
digit_step :
    (n m : ℕ) (xs ys : List ℕ)
    → n / 256 ≡ m / 256
    → n ≤ m
    → (n ≡ m → bytes_ltb xs ys ≡ true)
    → bytes_ltb (n % 256 ∷ xs) (m % 256 ∷ ys) ≡ true
digit_step n m xs ys above le below = elim (Bool-cases (n == m)) [
  | inl same ↦
      let e : n ≡ m = (==_iff n m).0 same in
      bytes_ltb-rest (n % 256) (m % 256) xs ys (ap (λ q. q % 256) e) (below e)
  | inr other ↦ bytes_ltb-first (n % 256) (m % 256) xs ys (ground (arith, other, le, above))
]

above_16 : (n : ℕ) → n / 0x100 / 256 ≡ n / 0x10000
above_16 n = omega arith

above_24 : (n : ℕ) → n / 0x10000 / 256 ≡ n / 0x1000000
above_24 n = omega arith

above_32 : (n : ℕ) → n / 0x1000000 / 256 ≡ n / 0x100000000
above_32 n = omega arith

above_40 : (n : ℕ) → n / 0x100000000 / 256 ≡ n / 0x10000000000
above_40 n = omega arith

above_48 : (n : ℕ) → n < 0x1000000000000 → n / 0x10000000000 / 256 ≡ 0
above_48 n h = omega arith

-- Milliseconds below 2^48 in order, with the rest in order where they are the same.
milliseconds_lt :
    (n m : ℕ) (xs ys : List ℕ)
    → n ≤ m
    → m < 0x1000000000000
    → (n ≡ m → bytes_ltb xs ys ≡ true)
    → bytes_ltb
        ((n / 0x10000000000) % 256
          ∷ (n / 0x100000000) % 256
          ∷ (n / 0x1000000) % 256
          ∷ (n / 0x10000) % 256
          ∷ (n / 0x100) % 256
          ∷ n % 256
          ∷ xs)
        ((m / 0x10000000000) % 256
          ∷ (m / 0x100000000) % 256
          ∷ (m / 0x1000000) % 256
          ∷ (m / 0x10000) % 256
          ∷ (m / 0x100) % 256
          ∷ m % 256
          ∷ ys)
      ≡ true
milliseconds_lt n m xs ys le top below =
    digit_step (n / 0x10000000000) (m / 0x10000000000) _ _
      (above_48 n (omega arith) ∙ sym (above_48 m top)) (omega arith)
      (λ a.
        digit_step (n / 0x100000000) (m / 0x100000000) _ _ (above_40 n ∙ a ∙ sym (above_40 m))
          (omega arith)
          (λ b.
            digit_step (n / 0x1000000) (m / 0x1000000) _ _ (above_32 n ∙ b ∙ sym (above_32 m))
              (omega arith)
              (λ c.
                digit_step (n / 0x10000) (m / 0x10000) _ _ (above_24 n ∙ c ∙ sym (above_24 m))
                  (omega arith)
                  (λ d.
                    digit_step (n / 0x100) (m / 0x100) _ _ (above_16 n ∙ d ∙ sym (above_16 m))
                      (omega arith) (λ e. digit_step n m xs ys e le below)))))

counter_lt :
    (c d : ℕ) (xs ys : List ℕ)
    → c < d
    → d < 0x1000
    → bytes_ltb ((0x70 + c / 256 % 16) ∷ c % 256 ∷ xs) ((0x70 + d / 256 % 16) ∷ d % 256 ∷ ys) ≡ true
counter_lt c d xs ys lt top = elim (Bool-cases (c / 256 == d / 256)) [
  | inl same ↦
      let e : c / 256 ≡ d / 256 = (==_iff (c / 256) (d / 256)).0 same in
      bytes_ltb-rest (0x70 + c / 256 % 16) (0x70 + d / 256 % 16) _ _ (ap (λ q. 0x70 + q % 16) e)
        (bytes_ltb-first (c % 256) (d % 256) xs ys (omega arith))
  | inr other ↦
      bytes_ltb-first (0x70 + c / 256 % 16) (0x70 + d / 256 % 16) _ _
        (ground (arith, other, lt, top))
]

layout-Follows :
    (g h : Generator) (random later : List ℕ)
    → Follows g h
    → IsWithin h
    → h.last_ms < 0x1000000000000
    → bytes_ltb (layout g.last_ms g.counter random) (layout h.last_ms h.counter later) ≡ true
unfolding layout
layout-Follows g h random later (inl lt) v top =
    milliseconds_lt g.last_ms h.last_ms _ _ (omega arith) top (λ e. absurd (omega arith))
layout-Follows g h random later (inr (same, lt)) v top =
    milliseconds_lt g.last_ms h.last_ms _ _ (omega arith) top
      (λ e. counter_lt g.counter h.counter _ _ lt v)

Follows-trans : (a b c : Generator) → Follows a b → Follows b c → Follows a c
Follows-trans a b c (inl p) (inl q) = inl (omega arith)
Follows-trans a b c (inl p) (inr (e, q)) = inl (omega arith)
Follows-trans a b c (inr (e, p)) (inl q) = inl (omega arith)
Follows-trans a b c (inr (e, p)) (inr (f, q)) = inr (e ∙ f, omega arith)

-- The generator after some mints, each with what the clock and the random source gave.
unfoldable pub mint_all : Generator → List (ℤ × List ℕ) → Generator
mint_all g [] = g
mint_all g ((now, random) ∷ l) = mint_all (next_from g now random).0 l

next_from-Follows :
    (g : Generator) (now : ℤ) (random : List ℕ)
    → IsWithin g
    → Follows g (next_from g now random).0 × IsWithin (next_from g now random).0
unfolding next_from
next_from-Follows g now random v = tick-Follows g now (byte_at random 6 * 256 + byte_at random 7) v

after_mints :
    (l : List (ℤ × List ℕ)) (g h : Generator) (now : ℤ) (random : List ℕ)
    → IsWithin h
    → Follows g h ⊎ (g ≡ h)
    → Follows g (next_from (mint_all h l) now random).0
      × IsWithin (next_from (mint_all h l) now random).0
unfolding mint_all
after_mints [] g h now random v (inl f) =
    let n = next_from-Follows h now random v in (Follows-trans g h _ f n.0, n.1)
after_mints [] g h now random v (inr e) = rw e (next_from-Follows h now random v)
after_mints (x ∷ l) g h now random v (inl f) =
    let n = next_from-Follows h x.0 x.1 v in
    after_mints l g (next_from h x.0 x.1).0 now random n.1 (inl (Follows-trans g h _ f n.0))
after_mints (x ∷ l) g h now random v (inr e) =
    let n = next_from-Follows h x.0 x.1 v in
    after_mints l g (next_from h x.0 x.1).0 now random n.1 (inl (rw e n.0))

-- While its millisecond stays below 2^48, an id of a generator comes before every later one of it in the
-- order of bytes, whatever the clock did between them, forwards, backwards or not at all, and whatever the
-- random source gave.
pub next_from-bytes_ltb :
    (g : Generator) (now later : ℤ) (random more : List ℕ) (between : List (ℤ × List ℕ))
    → IsWithin g
    → let first = next_from g now random in
      let last = next_from (mint_all first.0 between) later more in
      last.0.last_ms < 0x1000000000000 → bytes_ltb first.1 last.1 ≡ true
unfolding next_from
next_from-bytes_ltb g now later random more between v top =
    let first = next_from-Follows g now random v in
    let last =
      after_mints between (next_from g now random).0 (next_from g now random).0 later more first.1
        (inr refl) in
    layout-Follows _ _ random more last.0 last.1 top

-- The time of an id is the millisecond that it was minted with, below 2^48, and its version is 7.
pub layout-timestamp :
    (ms counter : ℕ) (random : List ℕ)
    → ms < 0x1000000000000
    → (timestamp (layout ms counter random) ≡ ms) × (version (layout ms counter random) ≡ 7)
unfolding layout timestamp version
layout-timestamp ms counter random top = (
  joined_up ms top (above_16 ms) (above_24 ms) (above_32 ms) (above_40 ms) (above_48 ms top),
  omega arith,
)
  where
    joined_up :
        (n : ℕ)
        → n < 0x1000000000000
        → n / 0x100 / 256 ≡ n / 0x10000
        → n / 0x10000 / 256 ≡ n / 0x1000000
        → n / 0x1000000 / 256 ≡ n / 0x100000000
        → n / 0x100000000 / 256 ≡ n / 0x10000000000
        → n / 0x10000000000 / 256 ≡ 0
        → (n / 0x10000000000) % 256 * 0x10000000000
            + (n / 0x100000000) % 256 * 0x100000000
            + (n / 0x1000000) % 256 * 0x1000000
            + (n / 0x10000) % 256 * 0x10000
            + (n / 0x100) % 256 * 0x100
            + n % 256
          ≡ n
    joined_up n h a b c d e = omega (arith, a, b, c, d, e)
