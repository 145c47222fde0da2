-- ===== src/Realtime/Drift/Groups.antt =====
-- The groups that lie one way, as groups of distinct users (`EvaluateDriftConsensus` of
-- server/internal/modules/realtime/timeline.go).
use vybe.Base.{
  suc, ltb, ◌≡◌, ◌⊎◌, inl, inr, refl, ap, List, [], ◌∷◌, length, arith, All, ℕ, Bool-cases,
}
use vybe.Base.Int.{◌≤ℤ◌, leb_ℤ}
use vybe.Realtime.Drift.{
  DriftReport, latest_reports, drift_of, ahead, behind, larger_group, drift_threshold,
  minus_drift_threshold,
}
use vybe.Realtime.Drift.Opinions.{
  IsOpinion, IsOther, HasDistinctUsers, latest_reports-HasDistinctUsers, latest_reports-IsOpinion,
}

abbrev pub IsAhead : DriftReport → Type 0
IsAhead r = drift_threshold ≤ℤ drift_of r

abbrev pub IsBehind : DriftReport → Type 0
IsBehind r = drift_of r ≤ℤ minus_drift_threshold

-- As many reports as a number says, of distinct users, each with a property and each lying one way.
pub record Agree (P far : DriftReport → Type 0) (n : ℕ) : Type 0 where
  pub agreeing : List DriftReport
  pub one_each : HasDistinctUsers agreeing
  pub opinions : All P agreeing
  pub one_way : All far agreeing
  pub counted : length agreeing ≡ n

-- A group drawn from a list, whose reports are not of the users of other ones that the list is not of.
Drawn : (DriftReport → Type 0) → (DriftReport → Type 0) → List DriftReport → ℕ → Type 0
Drawn P far l n =
    (g : List DriftReport) × HasDistinctUsers g
    × All P g
    × All far g
    × (length g ≡ n)
    × ((x : DriftReport) → All (IsOther x) l → All (IsOther x) g)

ahead-Drawn :
    (P : DriftReport → Type 0) (l : List DriftReport)
    → HasDistinctUsers l
    → All P l
    → Drawn P IsAhead l (length (ahead l))
unfolding ahead Drawn
ahead-Drawn P [] d a = ([], tt, tt, tt, refl, λ x h. tt)
ahead-Drawn P (r ∷ l) d a =
    let (g, one, opinions, way, size, apart) = ahead-Drawn P l d.1 a.1 in
    elim (Bool-cases (leb_ℤ drift_threshold (drift_of r))) [
      | inr near ↦ rw near (g, one, opinions, way, size, λ x h. apart x h.1)
      | inl far ↦ rw far (
        r ∷ g,
        (apart r d.0, one),
        (a.0, opinions),
        (ground (arith, far), way),
        ap suc size,
        λ x h. (h.0, apart x h.1),
      )
    ]

behind-Drawn :
    (P : DriftReport → Type 0) (l : List DriftReport)
    → HasDistinctUsers l
    → All P l
    → Drawn P IsBehind l (length (behind l))
unfolding behind Drawn
behind-Drawn P [] d a = ([], tt, tt, tt, refl, λ x h. tt)
behind-Drawn P (r ∷ l) d a =
    let (g, one, opinions, way, size, apart) = behind-Drawn P l d.1 a.1 in
    elim (Bool-cases (leb_ℤ drift_threshold (drift_of r))) [
      | inl over ↦ rw over (g, one, opinions, way, size, λ x h. apart x h.1)
      | inr under ↦ elim (Bool-cases (leb_ℤ (drift_of r) minus_drift_threshold)) [
        | inr near ↦ rw (under, near) (g, one, opinions, way, size, λ x h. apart x h.1)
        | inl far ↦
            rw (under, far)
              (
                r ∷ g,
                (apart r d.0, one),
                (a.0, opinions),
                (ground (arith, far), way),
                ap suc size,
                λ x h. (h.0, apart x h.1),
              )
      ]
    ]

Drawn-Agree :
    (P far : DriftReport → Type 0) (l : List DriftReport) (n : ℕ) → Drawn P far l n → Agree P far n
unfolding Drawn
Drawn-Agree P far l n (g, one, opinions, way, size, apart) = record {
  agreeing = g;
  one_each = one;
  opinions = opinions;
  one_way = way;
  counted = size;
}

-- The larger group stands for that many users whose opinions lie the same way.
pub larger_group-Agree :
    (reports : List DriftReport)
    → let latest = latest_reports [] reports in
      let n = length (larger_group (ahead latest) (behind latest)) in
      Agree (IsOpinion reports) IsAhead n ⊎ Agree (IsOpinion reports) IsBehind n
unfolding larger_group
larger_group-Agree reports =
    let latest = latest_reports [] reports in
    let d = latest_reports-HasDistinctUsers [] reports tt in
    let a = latest_reports-IsOpinion reports in
    elim (Bool-cases (ltb (length (ahead latest)) (length (behind latest)))) [
      | inl more ↦
          rw more
            (inr (Drawn-Agree _ IsBehind latest _ (behind-Drawn (IsOpinion reports) latest d a)))
      | inr less ↦
          rw less
            (inl (Drawn-Agree _ IsAhead latest _ (ahead-Drawn (IsOpinion reports) latest d a)))
    ]
