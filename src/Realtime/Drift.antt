-- ===== src/Realtime/Drift.antt =====
-- Drift reports and the consensus on them (`EvaluateDriftConsensus` and `medianDuration` of
-- server/internal/modules/realtime/timeline.go). The Go map of reports is a list with one entry for
-- each user. `float64(len)/float64(count) > 0.40` is written `5 * len > 2 * count`: the quotient of
-- two counts below 2^50 rounds to the literal only when it is 2/5.
pub mod Consensus
pub mod Median
pub mod Opinions
pub mod Groups
pub mod Prompt
use vybe.Base.{
  ℕ, zero, suc, ◌+◌, ◌-◌, ◌*◌, ◌/◌, ◌%◌, Bool, true, false, Option, none, some, List, [], ◌∷◌,
  if◌then◌else◌, ltb, ◌==◌, length, get_elem?,
}
use vybe.Base.Int.{ℤ, pos, negsuc, ◌*ℤ◌, ltb_ℤ, leb_ℤ, quot}
use vybe.Base.Word.{◌*64◌, ◌+64◌}
use vybe.Base.Text.{String, str_eq}
use vybe.Realtime.Clock.{sort_durations, or_zero}

-- DriftConsensusThreshold, and its negation.
abbrev pub drift_threshold : ℤ
drift_threshold = pos 8_000_000_000

abbrev pub minus_drift_threshold : ℤ
minus_drift_threshold = negsuc 7_999_999_999

pub record DriftReport : Type 0 where
  pub user_id : String
  pub drift_ms : ℤ
  pub reported : ℤ

pub record DriftConsensus : Type 0 where
  pub should_prompt_host : Bool
  pub suggested_shift : ℤ
  pub agreeing_users : ℕ
  pub total_reporters : ℕ

-- One turn of the loop that fills the map.
unfoldable pub note_report : List DriftReport → DriftReport → List DriftReport
note_report [] r = r ∷ []
note_report (prev ∷ m) r =
    let rest = note_report m r in
    if str_eq prev.user_id r.user_id
    then (if ltb_ℤ prev.reported r.reported then r else prev) ∷ m
    else prev ∷ rest

unfoldable pub latest_reports : List DriftReport → List DriftReport → List DriftReport
latest_reports m [] = m
latest_reports m (r ∷ l) = latest_reports (note_report m r) l

unfoldable pub drift_of : DriftReport → ℤ
drift_of r = r.drift_ms *64 pos 1_000_000

unfoldable pub ahead : List DriftReport → List ℤ
ahead [] = []
ahead (r ∷ l) =
    let rest = ahead l in if leb_ℤ drift_threshold (drift_of r) then drift_of r ∷ rest else rest

unfoldable pub behind : List DriftReport → List ℤ
behind [] = []
behind (r ∷ l) =
    let rest = behind l in
    if leb_ℤ drift_threshold (drift_of r)
    then rest
    else if leb_ℤ (drift_of r) minus_drift_threshold
    then drift_of r ∷ rest
    else rest

unfoldable pub larger_group : List ℤ → List ℤ → List ℤ
larger_group a b = if ltb (length a) (length b) then b else a

unfoldable pub median_duration : List ℤ → ℤ
median_duration [] = pos 0
median_duration (a ∷ l) =
    let sorted = sort_durations (a ∷ l) in
    let mid = length sorted / 2 in
    if length sorted % 2 == 1
    then or_zero (get_elem? sorted mid)
    else quot (or_zero (get_elem? sorted (mid - 1)) +64 or_zero (get_elem? sorted mid)) 2

unfoldable pub consensus_of : List ℤ → ℕ → ℤ → DriftConsensus
consensus_of group total participants =
    if ltb_ℤ (pos 2 *ℤ participants) (pos (5 * length group))
    then record {
      should_prompt_host = true;
      suggested_shift = median_duration group;
      agreeing_users = length group;
      total_reporters = total;
    }
    else record {
      should_prompt_host = false;
      suggested_shift = pos 0;
      agreeing_users = length group;
      total_reporters = total;
    }

unfoldable pub evaluate_drift_consensus : List DriftReport → ℤ → DriftConsensus
evaluate_drift_consensus reports participants =
    let latest = latest_reports [] reports in
    if leb_ℤ participants (pos 0)
    then record {
      should_prompt_host = false;
      suggested_shift = pos 0;
      agreeing_users = 0;
      total_reporters = 0;
    }
    else consensus_of (larger_group (ahead latest) (behind latest)) (length latest) participants
