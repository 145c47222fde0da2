-- ===== src/Realtime/EventLog/Decision.antt =====
-- What `DecideResync` (server/internal/modules/realtime/eventlog.go) promises a client.
use vybe.Base.{◌≡◌, ◌↔◌, arith}
use vybe.Base.Int.{
  ℤ, pos, ◌+ℤ◌, ◌-ℤ◌, ◌≤ℤ◌, ◌<ℤ◌, int_laws, +ℤ_parts, -ℤ_parts, eq_of_parts, parts_exclusive,
}
use vybe.Base.Word.{IsInt64, wrap64, wrap64-eq_self, wrap64_cases, ◌-64◌, ◌+64◌}
use vybe.Realtime.EventLog.{ResyncMode, decide_resync}

successor_fits : (a b : ℤ) → IsInt64 a → IsInt64 b → a <ℤ b → wrap64 (a +ℤ pos 1) ≡ a +ℤ pos 1
successor_fits a b h k lt =
    let one_sided = parts_exclusive a in
    let sum_one_sided = parts_exclusive (a +ℤ pos 1) in wrap64-eq_self _ (omega int_laws)

no_overflow : (a b : ℤ) → IsInt64 a → IsInt64 b → pos 0 ≤ℤ a → pos 0 ≤ℤ b → wrap64 (a -ℤ b) ≡ a -ℤ b
no_overflow a b h k p q =
    let one_sided = parts_exclusive (a -ℤ b) in
    let left = parts_exclusive a in
    let right = parts_exclusive b in wrap64-eq_self _ (omega int_laws)

-- The tests that a decision for a delta has passed, over the words that the code computes.
delta_tests :
    (last_seq current_seq oldest threshold : ℤ)
    → (decide_resync last_seq current_seq oldest threshold).mode ≡ ResyncMode.delta
    → (last_seq <ℤ current_seq)
      × (current_seq -64 last_seq ≤ℤ threshold)
      × (oldest ≤ℤ last_seq +64 pos 1)
unfolding decide_resync
delta_tests last_seq current_seq oldest threshold h =
    let e = eq_of_parts last_seq current_seq in ground arith

-- For every 64-bit position that a client may claim, also one at which the subtraction overflows,
-- in a room that stands at 0 or later and keeps events from 1 or later on: a delta is decided
-- exactly when the client is behind, by no more than the threshold, and the first event that it
-- misses is retained.
pub decide_resync-delta :
    (last_seq current_seq oldest threshold : ℤ)
    → IsInt64 last_seq
    → IsInt64 current_seq
    → pos 0 ≤ℤ current_seq
    → pos 1 ≤ℤ oldest
    → ((decide_resync last_seq current_seq oldest threshold).mode ≡ ResyncMode.delta) ↔ (
        (last_seq <ℤ current_seq)
        × (current_seq ≤ℤ last_seq +ℤ threshold)
        × (oldest ≤ℤ last_seq +ℤ pos 1))
unfolding decide_resync
decide_resync-delta last_seq current_seq oldest threshold a b c d =
    let one_sided = parts_exclusive (current_seq -ℤ last_seq) in
    let gap = wrap64_cases (current_seq -ℤ last_seq) (omega int_laws) (omega int_laws) in
    let next = successor_fits last_seq current_seq a b in
    (
      (λ h.
          let (behind, small, kept) = delta_tests last_seq current_seq oldest threshold h in
          let floor : oldest ≤ℤ last_seq +ℤ pos 1 = rw (next behind) at kept in
          let exact : current_seq -ℤ last_seq ≤ℤ threshold =
            rw (no_overflow current_seq last_seq b a c (omega int_laws)) at small in
          (behind, omega int_laws, floor)),
      λ h. ground (
        arith,
        gap,
        next,
        -ℤ_parts current_seq last_seq,
        +ℤ_parts last_seq (pos 1),
        +ℤ_parts last_seq threshold,
        eq_of_parts last_seq current_seq,
      ),
    )
