-- ===== src/Rooms/Succession/Choice.antt =====
-- Whom `SuccessorFor` (server/internal/modules/rooms/state.go) promotes.
use vybe.Base.{
  ◌≡◌, refl, ◌⊎◌, inl, inr, true, false, ◌&&◌, Option, none, some, List, [], ◌∷◌, arith, Occurs,
  All, Bool-cases,
}
use vybe.Base.Text.{str_ltb_irrefl, str_ltb_trans, str_ltb_total}
use vybe.Rooms.Succession.{Participant, eligible, earlier, longest_tenured}

earlier_irrefl : (p : Participant) → earlier p p ≡ false
unfolding earlier
earlier_irrefl p = ground (arith, str_ltb_irrefl p.user_id)

earlier_trans : (p q r : Participant) → earlier p q ≡ true → earlier q r ≡ true → earlier p r ≡ true
unfolding earlier
earlier_trans p q r h k = ground (arith, str_ltb_trans p.user_id q.user_id r.user_id)

-- Of two participants with different ids one comes first.
pub earlier_total :
    (p q : Participant) → (earlier p q ≡ true) ⊎ (p.user_id ≡ q.user_id) ⊎ (earlier q p ≡ true)
unfolding earlier
earlier_total p q = ground (arith, str_ltb_total p.user_id q.user_id)

-- Nobody is eligible; or the choice is eligible, and no eligible participant is earlier.
abbrev pub IsLongest : Option Participant → List Participant → Type 0
IsLongest none l = All (λ p. eligible p ≡ false) l
IsLongest (some b) l =
    Occurs b l × (eligible b ≡ true) × All (λ p. eligible p ≡ true → earlier p b ≡ false) l

longest_tenured-some :
    (u : Participant) (l : List Participant)
    → (v : Participant) × (longest_tenured (some u) l ≡ some v)
      × ((v ≡ u) ⊎ (Occurs v l × (eligible v ≡ true)))
      × ((p : Participant) → earlier p v ≡ true → earlier p u ≡ true)
      × All (λ p. eligible p ≡ true → earlier p v ≡ false) l
unfolding longest_tenured
longest_tenured-some u [] = (u, refl, inl refl, (λ p h. h), tt)
longest_tenured-some u (x ∷ l) = elim (Bool-cases (eligible x && earlier x u)) [
  | inl take ↦
      let (v, e, o, le, a) = longest_tenured-some x l in
      (
        v,
        rw take e,
        ground arith,
        λ p h. earlier_trans p x u (le p h) (ground arith),
        (λ h. ground (arith, le x, earlier_irrefl x), a),
      )
  | inr skip ↦
      let (v, e, o, le, a) = longest_tenured-some u l in
      (v, rw skip e, ground arith, le, (λ h. ground (arith, le x), a))
]

skip_ineligible :
    (x : Participant)
    → eligible x ≡ false
    → (r : Option Participant) (l : List Participant) → IsLongest r l
    → IsLongest r (x ∷ l)
skip_ineligible x bad none l h = (bad, h)
skip_ineligible x bad (some s) l (o, good, a) = (inr o, good, (λ h. cc, a))

-- Over any list of participants the loop finds an eligible one that no eligible one precedes by join time
-- and then by id, or finds that nobody is eligible.
pub longest_tenured-IsLongest : (l : List Participant) → IsLongest (longest_tenured none l) l
unfolding longest_tenured
longest_tenured-IsLongest [] = tt
longest_tenured-IsLongest (x ∷ l) = elim (Bool-cases (eligible x)) [
  | inl good ↦
      let (v, e, o, le, a) = longest_tenured-some x l in
      rw (good, e) (ground arith, ground arith, (λ h. ground (arith, le x, earlier_irrefl x), a))
  | inr bad ↦
      rw bad (skip_ineligible x bad (longest_tenured none l) l (longest_tenured-IsLongest l))
]
