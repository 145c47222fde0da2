-- ===== src/Games/Score.antt =====
-- The arithmetic of `Score` (server/internal/modules/games/scoring.go) on the values that a
-- question can have: no product passes 64 bits.
use Prim.Native.Nat.{◌-◌}
use native.Mathlib.Nat.{
  le_trans, le-div_iff_mul-le, div-mul-le_self, mul-le-mul_left, mul-div-mul_right, div-eq_of_lt,
}
use vybe.Base.{ℕ, ◌≡◌, refl, ◌/◌, ◌+◌, ◌*◌, ◌≤◌, ◌<◌, arith, leb, Bool-cases, ◌∙◌, inl, inr}
use vybe.Base.Int.{ℤ, pos, negsuc, pos_part, ◌≤ℤ◌, quot, *ℤ-pos, +ℤ-pos, -ℤ-pos}
use vybe.Base.Word.{wrap64-pos, quot64-pos}
use vybe.Games.{score, speed_bonus, max_score}

-- The speed bonus as a number: base * remaining / (2 * limit), rounded half up.
abbrev pub rounded_bonus : ℕ → ℕ → ℕ → ℕ
rounded_bonus b r l = (b * r + l) / (2 * l)

pub div-le-div : {a b : ℕ} (k : ℕ) → 0 < k → a ≤ b → a / k ≤ b / k
div-le-div {a} k p h = (le-div_iff_mul-le p).1 (le_trans (div-mul-le_self a k) h)

rounded_bonus_mono : (b r s l : ℕ) → 0 < l → r ≤ s → rounded_bonus b r l ≤ rounded_bonus b s l
rounded_bonus_mono b r s l p h =
    div-le-div (2 * l) (omega arith) (omega (arith, mul-le-mul_left b h))

rounded_bonus-le : (b r l : ℕ) → 0 < l → r ≤ l → rounded_bonus b r l ≤ (b + 1) / 2
rounded_bonus-le b r l p h =
    let top : rounded_bonus b l l ≡ (b + 1) / 2 =
      rw (← mul-div-mul_right (b + 1) 2 p) (ground arith) in
    rw (← top) (rounded_bonus_mono b r l l p h)

quot-pos : (a d : ℕ) → quot (pos a) d ≡ pos (a / d)
unfolding quot
quot-pos a d = refl

pub speed_bonus-pos :
    (b r l : ℕ)
    → b * r + l < 0x8000000000000000
    → 2 * l < 0x8000000000000000
    → speed_bonus (pos b) (pos r) (pos l) ≡ pos (rounded_bonus b r l)
unfolding speed_bonus
speed_bonus-pos b r l h k =
    let p : b * r < 0x8000000000000000 = omega arith in
    rw
      (
        *ℤ-pos b r,
        wrap64-pos (b * r) p,
        +ℤ-pos (b * r) l,
        wrap64-pos (b * r + l) h,
        *ℤ-pos 2 l,
        wrap64-pos (2 * l) k,
      )
      (quot64-pos _ _ h)

pub score-pos :
    (b x l : ℕ)
    → 0 < b
    → x < l
    → b * l + l < 0x8000000000000000
    → 2 * l + 2 * b < 0x8000000000000000
    → score (pos b) (pos x) (pos l) ≡ pos (b + rounded_bonus b (l - x) l)
unfolding score
score-pos b x l pb px h k =
    let bounded : b * (l - x) ≤ b * l = mul-le-mul_left b (omega arith) in
    let fits : b * (l - x) + l < 0x8000000000000000 = omega (arith, bounded) in
    let sum : b + rounded_bonus b (l - x) l < 0x8000000000000000 =
      omega (arith, rounded_bonus-le b (l - x) l (omega arith) (omega arith)) in
    ground (
      arith,
      speed_bonus-pos b (l - x) l fits (omega arith),
      -ℤ-pos l x (omega arith),
      wrap64-pos (l - x) (omega arith),
      +ℤ-pos b (rounded_bonus b (l - x) l),
      wrap64-pos (b + rounded_bonus b (l - x) l) sum,
    )

max_score-pos :
    (b : ℕ) → 0 < b → 2 * b < 0x8000000000000000 → max_score (pos b) ≡ pos (b + (b + 1) / 2)
unfolding max_score quot
max_score-pos b p h = ground (
  arith,
  +ℤ-pos b 1,
  wrap64-pos (b + 1) (omega arith),
  +ℤ-pos b ((b + 1) / 2),
  wrap64-pos (b + (b + 1) / 2) (omega arith),
)

-- A question whose base and time limit (in nanoseconds) keep every product within 64 bits.
abbrev pub IsScorable : ℕ → ℕ → Type 0
IsScorable b l =
    (0 < b) × (0 < l) × (b * l + l < 0x8000000000000000) × (2 * l + 2 * b < 0x8000000000000000)

score-late : (b l x : ℕ) → 0 < b → 0 < l → l ≤ x → score (pos b) (pos x) (pos l) ≡ pos b
unfolding score
score-late b l x p q h = ground arith

score-early : (b l n : ℕ) → score (pos b) (negsuc n) (pos l) ≡ score (pos b) (pos 0) (pos l)
unfolding score
score-early b l n = ground arith

no_bonus : (b l : ℕ) → 0 < l → rounded_bonus b 0 l ≡ 0
no_bonus b l p = div-eq_of_lt (omega arith)

score-pos_any :
    (b l x : ℕ)
    → IsScorable b l
    → score (pos b) (pos x) (pos l) ≡ pos (b + rounded_bonus b (l - x) l)
score-pos_any b l x (p, q, h, k) = elim (Bool-cases (leb l x)) [
  | inl late ↦
      let none_left : l - x ≡ 0 = ground arith in
      rw (none_left, no_bonus b l q) (ground (arith, score-late b l x p q))
  | inr early ↦ score-pos b x l p (ground arith) h k
]

-- For a scorable question, whatever time was taken, a negative one included: the points are the
-- base and the bonus base * remaining / (2 * limit), rounded half up.
pub score-rounded :
    (b l : ℕ) (e : ℤ)
    → IsScorable b l
    → score (pos b) e (pos l) ≡ pos (b + rounded_bonus b (l - pos_part e) l)
score-rounded b l (pos x) s = score-pos_any b l x s
score-rounded b l (negsuc n) s = score-early b l n ∙ score-pos_any b l 0 s

-- For a scorable question the points of a correct answer lie between the base and `MaxScore`,
-- whatever time was taken, a negative one included.
pub score_bounds :
    (b l : ℕ) (e : ℤ)
    → IsScorable b l
    → (pos b ≤ℤ score (pos b) e (pos l)) × (score (pos b) e (pos l) ≤ℤ max_score (pos b))
score_bounds b l e s =
    let top = rounded_bonus-le b (l - pos_part e) l s.1 (omega arith) in
    rw (score-rounded b l e s, max_score-pos b s.0 (omega arith)) (omega arith)

-- For a scorable question a slower answer never earns more than a faster one.
pub score_antitone :
    (b l : ℕ) (e f : ℤ)
    → IsScorable b l
    → e ≤ℤ f
    → score (pos b) f (pos l) ≤ℤ score (pos b) e (pos l)
score_antitone b l e f s h =
    let later : l - pos_part f ≤ l - pos_part e = ground arith in
    let fewer = rounded_bonus_mono b (l - pos_part f) (l - pos_part e) l s.1 later in
    rw (score-rounded b l e s, score-rounded b l f s) (omega arith)
