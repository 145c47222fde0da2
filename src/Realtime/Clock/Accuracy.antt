-- ===== src/Realtime/Clock/Accuracy.antt =====
-- How far `Sample.Offset` (server/internal/modules/realtime/clock.go) is from the truth.
use vybe.Base.{ℕ, ◌≡◌, ◌+◌}
use vybe.Base.Int.{ℤ, pos, ◌+ℤ◌, ◌-ℤ◌, ◌≤ℤ◌, int_laws, quot, quot-two, parts_of_eq}
use vybe.Base.Word.{IsInt64, wrap64-eq_self, saturate64-eq_self}
use vybe.Realtime.Clock.{Sample, rtt, offset}

-- The four instants lie so near one another that no subtraction saturates and no sum wraps.
pub record IsNear (s : Sample) : Type 0 where
  pub sent_back : IsInt64 (s.t3 -ℤ s.t0)
  pub held : IsInt64 (s.t2 -ℤ s.t1)
  pub there : IsInt64 (s.t1 -ℤ s.t0)
  pub back : IsInt64 (s.t2 -ℤ s.t3)
  pub round : IsInt64 (s.t3 -ℤ s.t0 -ℤ (s.t2 -ℤ s.t1))
  pub double : IsInt64 (s.t1 -ℤ s.t0 +ℤ (s.t2 -ℤ s.t3))

pub rtt_lem : (s : Sample) → IsNear s → rtt s ≡ s.t3 -ℤ s.t0 -ℤ (s.t2 -ℤ s.t1)
unfolding rtt
rtt_lem s n =
    rw (saturate64-eq_self _ n.sent_back, saturate64-eq_self _ n.held) (wrap64-eq_self _ n.round)

pub offset_lem : (s : Sample) → IsNear s → offset s ≡ quot (s.t1 -ℤ s.t0 +ℤ (s.t2 -ℤ s.t3)) 2
unfolding offset
offset_lem s n =
    rw (saturate64-eq_self _ n.there, saturate64-eq_self _ n.back, wrap64-eq_self _ n.double)

-- The client's clock is `theta` behind the server's, the two legs took `there` and `back`.
abbrev pub IsRoundTrip : Sample → ℤ → ℕ → ℕ → Type 0
IsRoundTrip s theta there back =
    (s.t1 ≡ s.t0 +ℤ theta +ℤ pos there) × (s.t3 ≡ s.t2 -ℤ theta +ℤ pos back)

-- Over any round trip whose instants are near: the measured RTT is the time on the two legs, without
-- what the server took, and the measured offset is off by at most half of it and half a nanosecond.
pub offset_error :
    (s : Sample) (theta : ℤ) (there back : ℕ)
    → IsNear s
    → IsRoundTrip s theta there back
    → (rtt s ≡ pos (there + back))
      × (offset s +ℤ offset s ≤ℤ theta +ℤ theta +ℤ (rtt s +ℤ pos 1))
      × (theta +ℤ theta ≤ℤ offset s +ℤ offset s +ℤ (rtt s +ℤ pos 1))
offset_error s theta there back n (e1, e3) =
    let f1 = parts_of_eq e1 in
    let f3 = parts_of_eq e3 in
    let half = quot-two (s.t1 -ℤ s.t0 +ℤ (s.t2 -ℤ s.t3)) in
    let legs : s.t3 -ℤ s.t0 -ℤ (s.t2 -ℤ s.t1) ≡ pos (there + back) = omega int_laws in
    rw (rtt_lem s n, offset_lem s n) (legs, omega int_laws, omega int_laws)
