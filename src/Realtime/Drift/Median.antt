-- ===== src/Realtime/Drift/Median.antt =====
-- Between which bounds `medianDuration` (server/internal/modules/realtime/timeline.go) lies.
use vybe.Base.{
  ℕ, zero, suc, ◌+◌, ◌-◌, ◌/◌, ◌%◌, ◌<◌, ◌≡◌, inl, inr, refl, List, [], ◌∷◌, ◌==◌, length,
  get_elem?, arith, All, Bool-cases,
}
use vybe.Base.Int.{ℤ, ◌+ℤ◌, ◌≤ℤ◌, quot, pos_part, neg_part, +ℤ_parts, quot-parts, parts_exclusive}
use vybe.Base.Word.{◌+64◌, wrap64-eq_self, IsInt64}
use vybe.Realtime.Clock.{sort_durations, insert_duration, or_zero}
use vybe.Realtime.Clock.Summary.{sort_durations-All}
use vybe.Realtime.Drift.{median_duration}

-- Between two bounds.
abbrev pub IsWithin : ℤ → ℤ → ℤ → Type 0
IsWithin lo hi d = (lo ≤ℤ d) × (d ≤ℤ hi)

-- So small that the sum of two is a 64-bit duration.
abbrev pub IsHalf : ℤ → Type 0
IsHalf a = (neg_part a < 0x4000000000000000) × (pos_part a < 0x4000000000000000)

insert_duration-length : (a : ℤ) (l : List ℤ) → length (insert_duration a l) ≡ length l + 1
insert_duration-length a [] = omega arith
insert_duration-length a (b ∷ l) = ground (arith, insert_duration-length a l)

sort_durations-length : (l : List ℤ) → length (sort_durations l) ≡ length l
unfolding sort_durations
sort_durations-length [] = refl
sort_durations-length (a ∷ l) =
    omega (arith, insert_duration-length a (sort_durations l), sort_durations-length l)

entry-All :
    (P : ℤ → Type 0) (l : List ℤ) (i : ℕ) → All P l → i < length l → P (or_zero (get_elem? l i))
entry-All P [] i h lt = absurd (omega arith)
entry-All P (a ∷ l) zero h lt = h.0
entry-All P (a ∷ l) (suc i) h lt = entry-All P l i h.1 (omega arith)

midpoint :
    (lo hi a b : ℤ)
    → IsHalf lo
    → IsHalf hi
    → IsWithin lo hi a
    → IsWithin lo hi b
    → IsWithin lo hi (quot (a +64 b) 2)
midpoint lo hi a b p q u v =
    let sum = +ℤ_parts a b in
    let fits : IsInt64 (a +ℤ b) =
      omega (arith, sum, parts_exclusive (a +ℤ b), parts_exclusive a, parts_exclusive b) in
    let exact = wrap64-eq_self (a +ℤ b) fits in
    rw exact (
      omega (
        arith,
        sum,
        quot-parts (a +ℤ b) 2,
        parts_exclusive (a +ℤ b),
        parts_exclusive lo,
        parts_exclusive hi,
      ))

-- The median of a group whose members lie between two bounds lies between them too, where the sum of
-- two members is a 64-bit duration.
pub median_duration-IsWithin :
    (lo hi a : ℤ) (l : List ℤ)
    → IsHalf lo
    → IsHalf hi
    → All (IsWithin lo hi) (a ∷ l)
    → IsWithin lo hi (median_duration (a ∷ l))
unfolding median_duration
median_duration-IsWithin lo hi a l p q h =
    let sorted = sort_durations (a ∷ l) in
    let all = sort_durations-All (IsWithin lo hi) (a ∷ l) h in
    let size = sort_durations-length (a ∷ l) in
    let at : (i : ℕ) → i < length sorted → IsWithin lo hi (or_zero (get_elem? sorted i)) =
      λ i lt. entry-All (IsWithin lo hi) sorted i all lt in
    elim (Bool-cases (length sorted % 2 == 1)) [
      | inl e ↦ rw e (at (length sorted / 2) (omega arith))
      | inr e ↦ rw e (
          midpoint lo hi (or_zero (get_elem? sorted (length sorted / 2 - 1)))
            (or_zero (get_elem? sorted (length sorted / 2))) p q
            (at (length sorted / 2 - 1) (omega arith)) (at (length sorted / 2) (omega arith)))
    ]
