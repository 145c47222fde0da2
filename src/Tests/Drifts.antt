-- ===== src/Tests/Drifts.antt =====
-- Drift reports of a room (server/internal/modules/realtime/timeline.go).
use vybe.Base.{◌*◌, ◌≤◌, ◌<◌, ◌⊎◌, refl, List, [], ◌∷◌, length, arith}
use vybe.Base.Int.{pos, ◌≤ℤ◌, ◌*ℤ◌}
use vybe.Base.Word.{wrap64}
use vybe.Realtime.Drift.{
  DriftReport, evaluate_drift_consensus, latest_reports, note_report, ahead, behind, larger_group,
  consensus_of, drift_of, drift_threshold, minus_drift_threshold,
}
use vybe.Realtime.Drift.Opinions.{IsOpinion}
use vybe.Realtime.Drift.Groups.{IsAhead, IsBehind, Agree}
use vybe.Realtime.Drift.Prompt.{evaluate_drift_consensus-prompts}

-- Two of three participants are ahead by 9 and by 10 seconds.
abbrev first_report : DriftReport
first_report = record { user_id = "a"; drift_ms = pos 9_000; reported = pos 1 }

abbrev second_report : DriftReport
second_report = record { user_id = "b"; drift_ms = pos 10_000; reported = pos 2 }

abbrev reports : List DriftReport
reports = first_report ∷ second_report ∷ []

evaluate_drift_consensus-prompts_example :
    let c = evaluate_drift_consensus reports (pos 3) in
    (2 * 3 < 5 * c.agreeing_users)
    × (Agree (IsOpinion reports) IsAhead c.agreeing_users
        ⊎ Agree (IsOpinion reports) IsBehind c.agreeing_users)
    × (c.agreeing_users ≤ c.total_reporters)
    × (c.total_reporters ≤ length reports)
    × ((drift_threshold ≤ℤ c.suggested_shift) ⊎ (c.suggested_shift ≤ℤ minus_drift_threshold))
unfolding evaluate_drift_consensus latest_reports note_report ahead behind larger_group consensus_of
    drift_of wrap64 ◌*ℤ◌
evaluate_drift_consensus-prompts_example =
    evaluate_drift_consensus-prompts reports 3
      ((omega arith, omega arith), ((omega arith, omega arith), tt)) refl
