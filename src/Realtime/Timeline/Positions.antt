-- ===== src/Realtime/Timeline/Positions.antt =====
-- Positions and instants of a timeline (server/internal/modules/realtime/timeline.go) against each
-- other and against the client clocks that clock.go measures.
use vybe.Base.{◌≡◌, ◌≢◌, Option, none, some, arith, ap, ◌∙◌, inl, inr}
use vybe.Base.Int.{ℤ, pos, ◌+ℤ◌, ◌-ℤ◌, ◌≤ℤ◌, int_laws, quot-two, is_zero_cases}
use vybe.Base.Word.{IsInt64, wrap64-eq_self, saturate64-eq_self}
use vybe.Realtime.Clock.{Sample, rtt, offset}
use vybe.Realtime.Clock.Accuracy.{IsNear, rtt_lem, offset_lem}
use vybe.Realtime.Timeline.{
  Timeline, position_at, position_for_client, server_time_for_position, reanchor,
}

-- The instant and its position are within 64 bits of the anchor.
abbrev pub IsReachable : Timeline → ℤ → Type 0
IsReachable t now =
    IsInt64 (now -ℤ t.anchor_server_time) × IsInt64 (now -ℤ t.anchor_server_time +ℤ t.anchor_offset)

position_at_lem :
    (t : Timeline) (now : ℤ)
    → t.anchor_server_time ≢ pos 0
    → IsReachable t now
    → position_at t now ≡ some (now -ℤ t.anchor_server_time +ℤ t.anchor_offset)
unfolding position_at
position_at_lem t now a (h, k) = ground (arith, saturate64-eq_self _ h, wrap64-eq_self _ k)

position_at_unstarted :
    (t : Timeline) (now : ℤ) → t.anchor_server_time ≡ pos 0 → position_at t now ≡ none
unfolding position_at
position_at_unstarted t now z = ground arith

-- On a started timeline the two directions are inverse: the position of an instant, where it is
-- within 64 bits of the anchor, leads back to the instant.
pub position_at-server_time :
    (t : Timeline) (now p : ℤ)
    → t.anchor_server_time ≢ pos 0
    → IsReachable t now
    → position_at t now ≡ some p
    → server_time_for_position t p ≡ some now
unfolding server_time_for_position
position_at-server_time t now p a r e =
    let q : p ≡ now -ℤ t.anchor_server_time +ℤ t.anchor_offset = cc (position_at_lem t now a r) in
    let back : p -ℤ t.anchor_offset ≡ now -ℤ t.anchor_server_time = rw q (omega int_laws) in
    let there : t.anchor_server_time +ℤ (now -ℤ t.anchor_server_time) ≡ now = omega int_laws in
    ground (arith, back, there, wrap64-eq_self _ r.0)

-- After a re-anchoring at a real instant the room is at the position asked for, whatever the timeline
-- was before.
pub reanchor-position_at :
    (t : Timeline) (at p : ℤ) → at ≢ pos 0 → IsInt64 p → position_at (reanchor t at p) at ≡ some p
unfolding reanchor
reanchor-position_at t at p a h =
    let same : at -ℤ at ≡ pos 0 = omega int_laws in
    let whole : at -ℤ at +ℤ p ≡ p = omega int_laws in
    position_at_lem (record { anchor_server_time = at; anchor_offset = p }) at a
      (rw same (omega arith), rw whole h)
    ∙ ap some whole

-- The same round trip on a device whose clock is `skew` ahead.
abbrev pub skewed : Sample → ℤ → Sample
skewed s skew = record s { t0 = s.t0 +ℤ skew; t3 = s.t3 +ℤ skew }

-- A device whose clock is off by any amount measures the same RTT, and its offset makes up for the
-- skew to within one nanosecond.
pub offset-skewed :
    (s : Sample) (skew : ℤ)
    → IsNear s
    → IsNear (skewed s skew)
    → (rtt (skewed s skew) ≡ rtt s)
      × (offset (skewed s skew) +ℤ skew ≤ℤ offset s +ℤ pos 1)
      × (offset s ≤ℤ offset (skewed s skew) +ℤ skew +ℤ pos 1)
offset-skewed s skew n m =
    let half = quot-two (s.t1 -ℤ s.t0 +ℤ (s.t2 -ℤ s.t3)) in
    let half' = quot-two (s.t1 -ℤ (s.t0 +ℤ skew) +ℤ (s.t2 -ℤ (s.t3 +ℤ skew))) in
    rw (rtt_lem s n, offset_lem s n, rtt_lem (skewed s skew) m, offset_lem (skewed s skew) m)
      (omega int_laws, omega int_laws, omega int_laws)

abbrev pub Within : ℤ → Option ℤ → Option ℤ → Type 0
Within d none none = Unit
Within d (some a) (some b) = (a ≤ℤ b +ℤ d) × (b ≤ℤ a +ℤ d)
Within d _ _ = ⊥

-- A device whose clock is off by any amount places every moment where one with a right clock
-- does, to within one nanosecond, with the offset of the same round trip on each, or neither has
-- a place for it. The instants are near one another on both clocks, and the moment is within 64
-- bits of the anchor.
pub position_for_client-skewed :
    (t : Timeline) (s : Sample) (now skew : ℤ)
    → IsNear s
    → IsNear (skewed s skew)
    → IsReachable t (now +ℤ offset s)
    → IsReachable t (now +ℤ skew +ℤ offset (skewed s skew))
    → Within
        (pos 1)
        (position_for_client t (now +ℤ skew) (offset (skewed s skew)))
        (position_for_client t now (offset s))
unfolding position_for_client
position_for_client-skewed t s now skew n m r r' = elim (is_zero_cases t.anchor_server_time) [
  | inl z ↦ rw (position_at_unstarted t _ z, position_at_unstarted t _ z) tt
  | inr a ↦
      let close = offset-skewed s skew n m in
      rw (position_at_lem t _ a r, position_at_lem t _ a r') (omega int_laws, omega int_laws)
]
