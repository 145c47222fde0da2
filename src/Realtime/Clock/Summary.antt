-- ===== src/Realtime/Clock/Summary.antt =====
-- `Stats` of server/internal/modules/realtime/clock.go against the estimator that it summarises.
use vybe.Base.{
  ◌≡◌, refl, ap, ◌∙◌, inl, inr, true, false, Option, none, some, List, [], ◌∷◌, arith, get_elem?,
  Occurs, All, Bool-cases,
}
use vybe.Base.Int.{ℤ, pos, ◌≤ℤ◌, leb_ℤ, eq_of_parts}
use vybe.Realtime.Clock.{
  Sample, ClockEstimator, rtt, offset, usable, best, estimate, usable_rtts, sort_durations,
  insert_duration, stats, or_zero, when_measured,
}
use vybe.Realtime.Clock.Window.{IsBest, best-IsBest}

insert_duration-All :
    (P : ℤ → Type 0) (a : ℤ) (l : List ℤ) → P a → All P l → All P (insert_duration a l)
insert_duration-All P a [] p h = (p, tt)
insert_duration-All P a (b ∷ l) p h = elim (Bool-cases (leb_ℤ a b)) [
  | inl before ↦ rw before (p, h)
  | inr after ↦ rw after (h.0, insert_duration-All P a l p h.1)
]

pub sort_durations-All : (P : ℤ → Type 0) (l : List ℤ) → All P l → All P (sort_durations l)
unfolding sort_durations
sort_durations-All P [] h = tt
sort_durations-All P (a ∷ l) h =
    insert_duration-All P a (sort_durations l) h.0 (sort_durations-All P l h.1)

insert_duration-head :
    (a : ℤ) (l : List ℤ) → All (λ b. a ≤ℤ b) l → get_elem? (insert_duration a l) 0 ≡ some a
insert_duration-head a [] h = refl
insert_duration-head a (b ∷ l) h = ground arith

insert_duration-keeps_head :
    (a m : ℤ) (l : List ℤ)
    → m ≤ℤ a
    → get_elem? l 0 ≡ some m
    → get_elem? (insert_duration a l) 0 ≡ some m
insert_duration-keeps_head a m [] le h = cc
insert_duration-keeps_head a m (b ∷ l) le h = ground (arith, eq_of_parts a m)

-- The head of the sorted list is the lower bound that occurs in it.
sort_durations-head :
    (m : ℤ) (l : List ℤ)
    → Occurs m l
    → All (λ b. m ≤ℤ b) l
    → get_elem? (sort_durations l) 0 ≡ some m
unfolding sort_durations
sort_durations-head m [] o h = absurd o
sort_durations-head m (a ∷ l) (inl e) h =
    rw (← e) (insert_duration-head m (sort_durations l) (sort_durations-All _ l h.1))
sort_durations-head m (a ∷ l) (inr o) h =
    insert_duration-keeps_head a m (sort_durations l) h.0 (sort_durations-head m l o h.1)

usable_rtts-Occurs :
    (s : Sample) (l : List Sample) → usable s ≡ true → Occurs s l → Occurs (rtt s) (usable_rtts l)
unfolding usable_rtts
usable_rtts-Occurs s [] good o = absurd o
usable_rtts-Occurs s (x ∷ l) good (inl e) = rw (← e, good) (inl refl)
usable_rtts-Occurs s (x ∷ l) good (inr o) = elim (Bool-cases (usable x)) [
  | inl also ↦ rw also (inr (usable_rtts-Occurs s l good o))
  | inr bad ↦ rw bad (usable_rtts-Occurs s l good o)
]

usable_rtts-All :
    (m : ℤ) (l : List Sample)
    → All (λ t. usable t ≡ true → m ≤ℤ rtt t) l
    → All (λ b. m ≤ℤ b) (usable_rtts l)
unfolding usable_rtts
usable_rtts-All m [] h = tt
usable_rtts-All m (x ∷ l) h = elim (Bool-cases (usable x)) [
  | inl good ↦ rw good (h.0 good, usable_rtts-All m l h.1)
  | inr bad ↦ rw bad (usable_rtts-All m l h.1)
]

usable_rtts-none : (l : List Sample) → All (λ t. usable t ≡ false) l → usable_rtts l ≡ []
unfolding usable_rtts
usable_rtts-none [] h = refl
usable_rtts-none (x ∷ l) h = rw (h.0) (usable_rtts-none l h.1)

abbrev pub Agrees : Option Sample → ClockEstimator → Type 0
Agrees none e = ((stats e).usable ≡ 0) × ((stats e).best_rtt ≡ pos 0) × ((stats e).offset ≡ pos 0)
Agrees (some s) e = ((stats e).best_rtt ≡ rtt s) × ((stats e).offset ≡ offset s)

stats-none : (e : ClockEstimator) → IsBest none e.samples → Agrees none e
unfolding stats sort_durations when_measured
stats-none e h = rw (usable_rtts-none e.samples h) (refl, refl, refl)

when_measured-Occurs : (a b : ℤ) (l : List ℤ) → Occurs a l → when_measured l b ≡ b
unfolding when_measured
when_measured-Occurs a b [] o = absurd o
when_measured-Occurs a b (c ∷ l) o = refl

stats-some :
    (e : ClockEstimator) (s : Sample)
    → best e ≡ some s
    → IsBest (some s) e.samples
    → Agrees (some s) e
unfolding stats estimate
stats-some e s c (o, good, low) =
    let there = usable_rtts-Occurs s e.samples good o in
    (
      ap or_zero (
          sort_durations-head (rtt s) (usable_rtts e.samples) there
            (usable_rtts-All (rtt s) e.samples low)),
      when_measured-Occurs (rtt s) (or_zero (estimate e)) (usable_rtts e.samples) there
          ∙ rw (estimate, c) refl,
    )

-- The dashboard tells what the estimator acts on: its best RTT and its offset are those of the sample
-- that `Best` chooses, and they are zero, with no usable sample counted, where it chooses none.
pub stats-Agrees : (e : ClockEstimator) → Agrees (best e) e
stats-Agrees e = by_choice (best e) refl (best-IsBest e)
  where
    by_choice : (r : Option Sample) → best e ≡ r → IsBest r e.samples → Agrees r e
    by_choice none c h = stats-none e h
    by_choice (some s) c h = stats-some e s c h
