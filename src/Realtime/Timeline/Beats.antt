-- ===== src/Realtime/Timeline/Beats.antt =====
-- When a timed event may fire (`EvaluateBeat` of server/internal/modules/realtime/timeline.go).
use vybe.Base.{◌≡◌, ◌↔◌, arith}
use vybe.Base.Int.{ℤ, ◌+ℤ◌, ◌-ℤ◌, ◌≤ℤ◌, -ℤ_parts, +ℤ_parts}
use vybe.Base.Word.{IsInt64, wrap64-eq_self}
use vybe.Realtime.Timeline.{BeatDecision, evaluate_beat, beat_tolerance}

-- Where the difference of the positions is a 64-bit duration: an event fires exactly within the
-- tolerance of its target, on either side.
pub evaluate_beat-fire :
    (current fires_at : ℤ)
    → IsInt64 (current -ℤ fires_at)
    → (evaluate_beat current fires_at ≡ BeatDecision.fire)
      ↔ ((fires_at ≤ℤ current +ℤ beat_tolerance) × (current ≤ℤ fires_at +ℤ beat_tolerance))
unfolding evaluate_beat
evaluate_beat-fire current fires_at h =
    let e = wrap64-eq_self _ h in
    let d = -ℤ_parts current fires_at in
    let u = +ℤ_parts current beat_tolerance in
    let v = +ℤ_parts fires_at beat_tolerance in
    (λ k. ground (arith, e, d, u, v), λ k. ground (arith, e, d, u, v))

-- As a room moves on, an event goes from pending over fire to skip and never back: once skipped
-- it stays skipped, and while it is pending it was pending before. The differences of the
-- positions are 64-bit durations.
pub evaluate_beat_order :
    (earlier later fires_at : ℤ)
    → IsInt64 (earlier -ℤ fires_at)
    → IsInt64 (later -ℤ fires_at)
    → earlier ≤ℤ later
    → (evaluate_beat earlier fires_at ≡ BeatDecision.skip
        → evaluate_beat later fires_at ≡ BeatDecision.skip)
      × (evaluate_beat later fires_at ≡ BeatDecision.pending
          → evaluate_beat earlier fires_at ≡ BeatDecision.pending)
unfolding evaluate_beat
evaluate_beat_order earlier later fires_at h k le =
    let e = wrap64-eq_self _ h in
    let f = wrap64-eq_self _ k in
    let d = -ℤ_parts earlier fires_at in
    let g = -ℤ_parts later fires_at in
    (λ s. ground (arith, e, f, d, g), λ s. ground (arith, e, f, d, g))
