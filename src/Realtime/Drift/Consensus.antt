-- ===== src/Realtime/Drift/Consensus.antt =====
-- Who decides a re-anchoring and by how much (`EvaluateDriftConsensus` of
-- server/internal/modules/realtime/timeline.go).
use vybe.Base.{
  ◌+◌, ◌≤◌, ◌≡◌, inl, inr, refl, ap, ◌∙◌, false, Option, none, some, List, [], ◌∷◌, ◌++◌,
  if◌then◌else◌, length, arith, All, Bool-cases,
}
use vybe.Base.Int.{ℤ, ◌≤ℤ◌, ltb_ℤ}
use vybe.Base.Text.{String, str_eq}
use vybe.Realtime.Drift.{
  DriftReport, note_report, latest_reports, ahead, behind, evaluate_drift_consensus,
  drift_threshold, minus_drift_threshold,
}

-- The user's report in a list.
unfoldable pub report_by : String → List DriftReport → Option DriftReport
report_by user [] = none
report_by user (r ∷ l) = if str_eq r.user_id user then some r else report_by user l

note-older :
    (m : List DriftReport) (r p : DriftReport)
    → report_by r.user_id m ≡ some p
    → ltb_ℤ p.reported r.reported ≡ false
    → note_report m r ≡ m
unfolding note_report report_by
note-older [] r p h o = absurd cc
note-older (q ∷ m) r p h o = elim (Bool-cases (str_eq q.user_id r.user_id)) [
  | inl e ↦
      let same : q ≡ p = ground (arith, e, h) in
      rw e (rw (ap (λ x. ltb_ℤ x.reported r.reported) same ∙ o) refl)
  | inr e ↦ rw e (ap (◌∷◌ q) (note-older m r p (ground (arith, e, h)) o))
]

latest-append :
    (m l : List DriftReport) (r : DriftReport)
    → latest_reports m (l ++ r ∷ []) ≡ note_report (latest_reports m l) r
unfolding latest_reports
latest-append m [] r = refl
latest-append m (q ∷ l) r = latest-append (note_report m q) l r

-- A report that is no newer than what its user has already reported changes nothing: however often
-- a user reports at one time, it is one opinion.
pub evaluate_drift_consensus-repeated :
    (reports : List DriftReport) (r p : DriftReport) (participants : ℤ)
    → report_by r.user_id (latest_reports [] reports) ≡ some p
    → ltb_ℤ p.reported r.reported ≡ false
    → evaluate_drift_consensus (reports ++ r ∷ []) participants
      ≡ evaluate_drift_consensus reports participants
unfolding evaluate_drift_consensus
evaluate_drift_consensus-repeated reports r p participants h o =
    rw (latest-append [] reports r, note-older (latest_reports [] reports) r p h o) refl

note-length : (m : List DriftReport) (r : DriftReport) → length (note_report m r) ≤ length m + 1
unfolding note_report
note-length [] r = omega arith
note-length (q ∷ m) r = ground (arith, note-length m r)

pub latest-length : (m l : List DriftReport) → length (latest_reports m l) ≤ length m + length l
unfolding latest_reports
latest-length m [] = omega arith
latest-length m (r ∷ l) = omega (arith, note-length m r, latest-length (note_report m r) l)

pub groups-length : (l : List DriftReport) → length (ahead l) + length (behind l) ≤ length l
unfolding ahead behind
groups-length [] = omega arith
groups-length (r ∷ l) = ground (arith, groups-length l)

ahead-All : (l : List DriftReport) → All (λ d. drift_threshold ≤ℤ d) (ahead l)
unfolding ahead
ahead-All [] = tt
ahead-All (r ∷ l) = ground (arith, ahead-All l)

behind-All : (l : List DriftReport) → All (λ d. d ≤ℤ minus_drift_threshold) (behind l)
unfolding behind
behind-All [] = tt
behind-All (r ∷ l) = ground (arith, behind-All l)
