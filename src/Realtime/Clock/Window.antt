-- ===== src/Realtime/Clock/Window.antt =====
-- What the estimator of server/internal/modules/realtime/clock.go keeps, and which sample it trusts.
use vybe.Base.{
  suc, ◌+◌, ◌-◌, ◌≤◌, ◌≡◌, refl, sym, ap, ◌∙◌, ◌⊎◌, inl, inr, true, false, Option, none, some, List,
  [], ◌∷◌, ◌++◌, arith, length, drop, length-append, length-drop, drop-append_le, drop-one_drop,
  Occurs, All, ◌≢◌, ◌↔◌, Bool-cases, ltb, ◌&&◌,
}
use mathlib.Core.List.{append-nil, append_assoc}
use vybe.Base.Int.{◌≤ℤ◌}
use vybe.Realtime.Clock.{
  Sample, ClockEstimator, rtt, offset, usable, observe, closer, best_from, best, estimate, degraded,
  none_usable, offset_sample_window,
}

-- A connection that has measured nothing, and one that has completed a history of round trips.
abbrev pub unmeasured : ClockEstimator
unmeasured = record { samples = [] }

abbrev pub observe_all : ClockEstimator → List Sample → ClockEstimator
observe_all e [] = e
observe_all e (s ∷ l) = observe_all (observe e s) l

abbrev last_five : List Sample → List Sample
last_five l = drop (length l - 5) l

observe-last_five :
    (e : ClockEstimator) (past : List Sample) (s : Sample)
    → e.samples ≡ last_five past
    → (observe e s).samples ≡ last_five (past ++ s ∷ [])
unfolding observe
observe-last_five e past s h =
    let kept : e.samples ++ s ∷ [] ≡ drop (length past - 5) (past ++ s ∷ []) =
      rw h (sym (drop-append_le (length past - 5) past (s ∷ []) (omega arith))) in
    let size : length (past ++ s ∷ []) ≡ length past + 1 = length-append past (s ∷ []) in
    elim (Bool-cases (ltb (length past) 5)) [
      | inl short ↦ ground (arith, kept, size, length-drop (length past - 5) (past ++ s ∷ []))
      | inr long ↦
          let big : 5 ≤ length past = ground arith in
          let one : length (e.samples ++ s ∷ []) ≡ 6 =
            ap length kept ∙ omega (arith, size, length-drop (length past - 5) (past ++ s ∷ [])) in
          let more : suc (length past - 5) ≡ length (past ++ s ∷ []) - 5 = ground (arith, size) in
          rw one (
            ap (drop 1) kept
            ∙ drop-one_drop (length past - 5) (past ++ s ∷ [])
            ∙ ap (λ k. drop k (past ++ s ∷ [])) more)
    ]

observe_all-from :
    (e : ClockEstimator) (past l : List Sample)
    → e.samples ≡ last_five past
    → (observe_all e l).samples ≡ last_five (past ++ l)
observe_all-from e past [] h = rw append-nil h
observe_all-from e past (s ∷ l) h =
    rw (← append_assoc past (s ∷ []) l)
      (observe_all-from (observe e s) (past ++ s ∷ []) l (observe-last_five e past s h))

-- After any history of round trips the window holds the last five of them, in order, usable or not.
pub observe_all-last_five :
    (l : List Sample)
    → (observe_all unmeasured l).samples ≡ drop (length l - offset_sample_window) l
observe_all-last_five l = observe_all-from unmeasured [] l refl

-- The estimator trusts nothing, and no sample is usable; or it trusts a usable sample of the window
-- that no other usable one beats.
abbrev pub IsBest : Option Sample → List Sample → Type 0
IsBest none l = All (λ t. usable t ≡ false) l
IsBest (some s) l = Occurs s l × (usable s ≡ true) × All (λ t. usable t ≡ true → rtt s ≤ℤ rtt t) l

best_from-some :
    (u : Sample) (l : List Sample)
    → (v : Sample) × (best_from (some u) l ≡ some v)
      × ((v ≡ u) ⊎ (Occurs v l × (usable v ≡ true)))
      × (rtt v ≤ℤ rtt u)
      × All (λ t. usable t ≡ true → rtt v ≤ℤ rtt t) l
unfolding best_from
best_from-some u [] = (u, refl, inl refl, omega arith, tt)
best_from-some u (x ∷ l) = elim (Bool-cases (usable x && closer (some u) x)) [
  | inl take ↦
      let (v, e, o, le, a) = best_from-some x l in
      (v, rw take e, ground arith, ground arith, (λ h. le, a))
  | inr skip ↦
      let (v, e, o, le, a) = best_from-some u l in
      (v, rw skip e, ground arith, le, (λ h. ground arith, a))
]

skip_unusable :
    (x : Sample)
    → usable x ≡ false
    → (r : Option Sample) (l : List Sample) → IsBest r l
    → IsBest r (x ∷ l)
skip_unusable x bad none l h = (bad, h)
skip_unusable x bad (some s) l (o, good, a) = (inr o, good, (λ h. cc, a))

best_from-none : (l : List Sample) → IsBest (best_from none l) l
unfolding best_from
best_from-none [] = tt
best_from-none (x ∷ l) = elim (Bool-cases (usable x)) [
  | inl good ↦
      let (v, e, o, le, a) = best_from-some x l in
      rw (good, e) (ground arith, ground arith, (λ h. le, a))
  | inr bad ↦ rw bad (skip_unusable x bad (best_from none l) l (best_from-none l))
]

unusable-none_usable : (l : List Sample) → All (λ t. usable t ≡ false) l → none_usable l ≡ true
unusable-none_usable [] a = refl
unusable-none_usable (x ∷ l) a = ground (arith, unusable-none_usable l a.1)

Occurs-none_usable :
    (s : Sample) (l : List Sample) → usable s ≡ true → Occurs s l → none_usable l ≡ false
Occurs-none_usable s [] good o = absurd o
Occurs-none_usable s (x ∷ l) good (inl e) = rw (← e, good) refl
Occurs-none_usable s (x ∷ l) good (inr o) = ground (arith, Occurs-none_usable s l good o)

none_usable-best :
    (r : Option Sample) (l : List Sample)
    → IsBest r l
    → none_usable l ≡ (elim r [ none ↦ true | some s ↦ false ])
none_usable-best none l h = unusable-none_usable l h
none_usable-best (some s) l h = Occurs-none_usable s l h.1 h.0

degraded_cases :
    (l : List Sample)
    → ((elim l [ [] ↦ false | s ∷ m ↦ none_usable (s ∷ m) ]) ≡ true)
      ↔ ((l ≢ []) × (elim (best_from none l) [ none ↦ none | some s ↦ some (offset s) ] ≡ none))
degraded_cases [] = ((λ h. cc), λ h. absurd (h.0 refl))
degraded_cases (s ∷ l) =
    let told = none_usable-best (best_from none (s ∷ l)) (s ∷ l) (best_from-none (s ∷ l)) in
    ((λ h. ((λ e. cc), ground (arith, told))), λ h. ground (arith, told))

-- In any window, the estimator's choice is a usable sample of the lowest RTT, and it makes none exactly
-- when no sample is usable.
pub best-IsBest : (e : ClockEstimator) → IsBest (best e) e.samples
unfolding best
best-IsBest e = best_from-none e.samples

-- A window of bad samples is told from an empty one: the connection is degraded exactly when the
-- window has samples and the estimator finds no offset in them.
pub degraded_iff :
    (e : ClockEstimator) → (degraded e ≡ true) ↔ ((e.samples ≢ []) × (estimate e ≡ none))
unfolding degraded estimate best
degraded_iff e = degraded_cases e.samples
