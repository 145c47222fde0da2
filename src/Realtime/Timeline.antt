-- ===== src/Realtime/Timeline.antt =====
-- The shared virtual clock and timed events (server/internal/modules/realtime/timeline.go).
-- Instants and durations are integers of nanoseconds; `none` is ErrNotStarted.
pub mod Positions
pub mod Beats
use vybe.Base.{Bool, not, Option, none, some, if◌then◌else◌}
use vybe.Base.Int.{ℤ, pos, ◌+ℤ◌, ltb_ℤ, negsuc}
use vybe.Base.Word.{◌+64◌, ◌-64◌, time_sub, is_zero_time}

-- BeatTolerance, and its negation.
abbrev pub beat_tolerance : ℤ
beat_tolerance = pos 1_500_000_000

abbrev pub minus_beat_tolerance : ℤ
minus_beat_tolerance = negsuc 1_499_999_999

pub record Timeline : Type 0 where
  pub anchor_server_time : ℤ
  pub anchor_offset : ℤ

unfoldable pub started : Timeline → Bool
started t = not (is_zero_time t.anchor_server_time)

unfoldable pub position_at : Timeline → ℤ → Option ℤ
unfolding started
position_at t server_now =
    if not (started t)
    then none
    else some (time_sub server_now t.anchor_server_time +64 t.anchor_offset)

unfoldable pub position_for_client : Timeline → ℤ → ℤ → Option ℤ
position_for_client t client_now offset = position_at t (client_now +ℤ offset)

unfoldable pub server_time_for_position : Timeline → ℤ → Option ℤ
unfolding started
server_time_for_position t p =
    if not (started t) then none else some (t.anchor_server_time +ℤ (p -64 t.anchor_offset))

unfoldable pub reanchor : Timeline → ℤ → ℤ → Timeline
reanchor t at p = record { anchor_server_time = at; anchor_offset = p }

pub data BeatDecision : Type 0 where
  pending fire skip : BeatDecision

unfoldable pub evaluate_beat : ℤ → ℤ → BeatDecision
evaluate_beat current fires_at =
    let delta = current -64 fires_at in
    if ltb_ℤ delta minus_beat_tolerance
    then BeatDecision.pending
    else if ltb_ℤ beat_tolerance delta
    then BeatDecision.skip
    else BeatDecision.fire
