-- ===== src/Tests/Clocks.antt =====
-- Round trips of a device whose clock is an hour ahead (server/internal/modules/realtime).
use vybe.Base.{ℕ, ◌+◌, ◌≡◌, ◌≢◌, refl, arith}
use vybe.Base.Int.{ℤ, pos, ◌+ℤ◌, ◌-ℤ◌, ◌≤ℤ◌, parts_of_eq, quot}
use vybe.Base.Word.{saturate64, wrap64, quot64}
use vybe.Realtime.Clock.{Sample, rtt, offset}
use vybe.Realtime.Clock.Accuracy.{IsNear, offset_error}
use vybe.Realtime.Timeline.{Timeline, position_for_client}
use vybe.Realtime.Timeline.Positions.{skewed, Within, position_for_client-skewed}

not_zero : (n : ℕ) → pos (n + 1) ≢ pos 0
not_zero n e = absurd (omega (arith, parts_of_eq e))

-- 30 ms there and 50 ms back; the server takes 2 ms and its clock is 7 ms ahead.
abbrev round_trip : Sample
round_trip = record {
  t0 = pos 1_000_000_000;
  t1 = pos 1_037_000_000;
  t2 = pos 1_039_000_000;
  t3 = pos 1_082_000_000;
}

abbrev hour : ℤ
hour = pos 3_600_000_000_000

abbrev film : Timeline
film = record { anchor_server_time = pos 1_000_000_000; anchor_offset = pos 5_000_000_000 }

round_trip-IsNear : IsNear round_trip
unfolding ◌+ℤ◌ ◌-ℤ◌
round_trip-IsNear = record {
  sent_back = (omega arith, omega arith);
  held = (omega arith, omega arith);
  there = (omega arith, omega arith);
  back = (omega arith, omega arith);
  round = (omega arith, omega arith);
  double = (omega arith, omega arith);
}

skewed-IsNear : IsNear (skewed round_trip hour)
unfolding ◌+ℤ◌ ◌-ℤ◌
skewed-IsNear = record {
  sent_back = (omega arith, omega arith);
  held = (omega arith, omega arith);
  there = (omega arith, omega arith);
  back = (omega arith, omega arith);
  round = (omega arith, omega arith);
  double = (omega arith, omega arith);
}

offset_error_example :
    (rtt round_trip ≡ pos 80_000_000)
    × (offset round_trip +ℤ offset round_trip
        ≤ℤ pos 7_000_000 +ℤ pos 7_000_000 +ℤ (rtt round_trip +ℤ pos 1))
    × (pos 7_000_000 +ℤ pos 7_000_000
        ≤ℤ offset round_trip +ℤ offset round_trip +ℤ (rtt round_trip +ℤ pos 1))
unfolding ◌+ℤ◌ ◌-ℤ◌
offset_error_example =
    offset_error round_trip (pos 7_000_000) 30_000_000 50_000_000 round_trip-IsNear (refl, refl)

position_for_client-skewed_example :
    Within
      (pos 1)
      (position_for_client film (pos 2_000_000_000 +ℤ hour) (offset (skewed round_trip hour)))
      (position_for_client film (pos 2_000_000_000) (offset round_trip))
unfolding ◌+ℤ◌ ◌-ℤ◌ offset quot64 saturate64 wrap64 quot
position_for_client-skewed_example =
    position_for_client-skewed film round_trip (pos 2_000_000_000) hour round_trip-IsNear
      skewed-IsNear ((omega arith, omega arith), (omega arith, omega arith))
      ((omega arith, omega arith), (omega arith, omega arith))
