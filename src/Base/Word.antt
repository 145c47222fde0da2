-- ===== src/Base/Word.antt =====
-- Go's 64-bit signed arithmetic: `+`, `-` and `*` on `int`, `int64` and `time.Duration` wrap, and
-- `time.Time.Sub` saturates. A `time.Time` is the integer of nanoseconds since Go's zero time.
use Prim.Native.Nat.{ℕ, ◌+◌, ◌-◌, ◌%◌, ◌≤◌, ◌<◌}
use mathlib.Core.Path.{◌≡◌}
use mathlib.Core.Logic.{◌⊎◌}
use mathlib.Core.Bool.{Bool}
use native.Mathlib.Omega.{arith}
use native.Mathlib.Nat.{le_trans, div-le_self}
use Prim.Native.Nat.{suc-le-suc, ◌/◌}
use vybe.Base.Tests.{if◌then◌else◌}
use vybe.Base.Int.{ℤ, pos, negsuc, pos_part, neg_part, sub_ℕ, quot, ◌+ℤ◌, ◌-ℤ◌, ◌*ℤ◌, ltb_ℤ, eqb_ℤ}

-- The values of an `int64`.
abbrev pub IsInt64 : ℤ → Type 0
IsInt64 a = (neg_part a ≤ 0x8000000000000000) × (pos_part a < 0x8000000000000000)

-- The value that the low 64 bits of an integer stand for.
unfoldable pub wrap64 : ℤ → ℤ
wrap64 a =
    sub_ℕ
      ((pos_part a + 0x8000000000000000 + (0x10000000000000000 - neg_part a % 0x10000000000000000))
        % 0x10000000000000000)
      0x8000000000000000

-- The nearest `int64`.
unfoldable pub saturate64 : ℤ → ℤ
saturate64 a =
    if ltb_ℤ (pos 0x7fffffffffffffff) a
    then pos 0x7fffffffffffffff
    else if ltb_ℤ a (negsuc 0x7fffffffffffffff)
    then negsuc 0x7fffffffffffffff
    else a

infixl 65 ◌+64◌ ◌-64◌
infixl 70 ◌*64◌
abbrev pub ◌+64◌ : ℤ → ℤ → ℤ
a +64 b = wrap64 (a +ℤ b)

abbrev pub ◌-64◌ : ℤ → ℤ → ℤ
a -64 b = wrap64 (a -ℤ b)

abbrev pub ◌*64◌ : ℤ → ℤ → ℤ
a *64 b = wrap64 (a *ℤ b)

-- `t.Sub(u)`, `t.IsZero()`
abbrev pub time_sub : ℤ → ℤ → ℤ
time_sub t u = saturate64 (t -ℤ u)

abbrev pub is_zero_time : ℤ → Bool
is_zero_time t = eqb_ℤ t (pos 0)

pub wrap64-eq_self : (a : ℤ) → IsInt64 a → wrap64 a ≡ a
unfolding wrap64
wrap64-eq_self (pos n) h = ground arith
wrap64-eq_self (negsuc n) h = ground arith

pub wrap64-IsInt64 : (a : ℤ) → IsInt64 (wrap64 a)
unfolding wrap64
wrap64-IsInt64 a = ground arith

pub saturate64-eq_self : (a : ℤ) → IsInt64 a → saturate64 a ≡ a
unfolding saturate64
saturate64-eq_self (pos n) h = ground arith
saturate64-eq_self (negsuc n) h = ground arith

pub saturate64-IsInt64 : (a : ℤ) → IsInt64 (saturate64 a)
unfolding saturate64
saturate64-IsInt64 (pos n) = ground arith
saturate64-IsInt64 (negsuc n) = ground arith

pub wrap64-pos : (n : ℕ) → n < 0x8000000000000000 → wrap64 (pos n) ≡ pos n
wrap64-pos n h = wrap64-eq_self (pos n) (omega arith)

-- Go's `/` on `int64`, by a divisor of either sign. A caller's divisor is not 0.
unfoldable pub quot64 : ℤ → ℤ → ℤ
quot64 a b = wrap64 (
    if ltb_ℤ b (pos 0)
    then quot (sub_ℕ (neg_part a) (pos_part a)) (neg_part b)
    else quot a (pos_part b))

pub quot64-pos : (a b : ℕ) → a < 0x8000000000000000 → quot64 (pos a) (pos b) ≡ pos (a / b)
unfolding quot64 quot
quot64-pos a b h =
    let p : a / b < 0x8000000000000000 = le_trans (suc-le-suc (div-le_self a b)) h in
    ground (arith, wrap64-pos (a / b) p)

-- Within one turn of the words, wrapping keeps an integer or moves it by one turn.
pub wrap64_cases :
    (a : ℤ)
    → pos_part a < 0x10000000000000000
    → neg_part a < 0x10000000000000000
    → ((wrap64 a ≡ a) × IsInt64 a)
      ⊎ ((0x8000000000000000 ≤ pos_part a)
          × (pos_part (wrap64 a) + 0x10000000000000000 ≡ pos_part a + neg_part (wrap64 a)))
      ⊎ ((0x8000000000000000 < neg_part a)
          × (pos_part (wrap64 a) + neg_part a ≡ 0x10000000000000000 + neg_part (wrap64 a)))
unfolding wrap64
wrap64_cases (pos n) h k = ground arith
wrap64_cases (negsuc n) h k = ground arith
