-- ===== src/Realtime/Resync/Completeness.antt =====
-- What a client may conclude from the answer to a RESYNC (handleResync of
-- server/internal/modules/realtime/handler.go).
use vybe.Base.{ℕ, ◌+◌, ◌-◌, ◌<◌, ◌≤◌, ◌≡◌, sym, ap, ◌∙◌, true, none, some, List, arith, length}
use vybe.Base.Int.{pos, +ℤ-pos, -ℤ-pos}
use vybe.Base.Word.{wrap64-pos, ◌-64◌}
use vybe.Base.Text.{String}
use vybe.Realtime.EventLog.{Envelope, ResyncMode, gap_within, decide_resync, verify_contiguous}
use vybe.Realtime.EventLog.Contiguity.{
  seqs, run_from, verify_contiguous_iff, length-seqs, length-run_from,
}
use vybe.Realtime.Resync.{Read, RoomReader, delta_frame, handle_resync, send_delta}

-- What the rooms module promises of one member's view: the room stands at `current`, it has kept the events
-- from `oldest` on, and a read within those returns them all, without a gap.
pub record IsReliable (r : RoomReader) (room user : String) (current oldest : ℕ) : Type 0 where
  pub member : r.membership room user ≡ some (pos current)
  pub floor : r.oldest_retained_seq room ≡ some (pos oldest)
  pub reads :
      (after to : ℕ)
      → oldest ≤ after + 1
      → after ≤ to
      → to ≤ current
      → (l : List Envelope) × (r.events_since room (pos after) (pos to) ≡ Read.read l)
        × (seqs l ≡ run_from (after + 1) (to - after))

decide_delta :
    (last current oldest threshold : ℕ)
    → last < current
    → current ≤ last + threshold
    → oldest ≤ last + 1
    → current < 0x8000000000000000
    → decide_resync (pos last) (pos current) (pos oldest) (pos threshold) ≡ record {
      mode = ResyncMode.delta;
      from_seq = pos (last + 1);
      to_seq = pos current;
      reason = gap_within (pos (current - last)) (pos threshold);
    }
unfolding decide_resync
decide_delta last current oldest threshold behind near kept small =
    ground (
      arith,
      -ℤ-pos current last,
      wrap64-pos (current - last),
      +ℤ-pos last 1,
      wrap64-pos (last + 1),
    )

run_size : (l : List Envelope) (first n : ℕ) → seqs l ≡ run_from first n → length l ≡ n
run_size l first n e = sym (length-seqs l) ∙ ap length e ∙ length-run_from first n

run_exact :
    (l : List Envelope) (first n : ℕ)
    → seqs l ≡ run_from first n
    → seqs l ≡ run_from first (length l)
run_exact l first n e = rw (run_size l first n e) e

-- A run that begins with the first missed event is sent as the delta up to `current`.
sends_run :
    (r : RoomReader) (room user : String) (last current oldest threshold : ℕ) (l : List Envelope)
    → r.membership room user ≡ some (pos current)
    → r.oldest_retained_seq room ≡ some (pos oldest)
    → last < current
    → current ≤ last + threshold
    → oldest ≤ last + 1
    → current + 1 < 0x8000000000000000
    → r.events_since room (pos last) (pos current) ≡ Read.read l
    → length l ≤ current - last
    → seqs l ≡ run_from (last + 1) (length l)
    → handle_resync r (pos threshold) room user (pos last)
      ≡ delta_frame (pos (last + 1)) (pos current) l true
unfolding handle_resync send_delta
sends_run r room user last current oldest threshold l m f behind near kept small got size run =
    let whole : verify_contiguous l (pos (last + 1)) ≡ none =
      (verify_contiguous_iff l (last + 1) (omega (arith, size))).1 run in
    let d = decide_delta last current oldest threshold behind near kept (omega arith) in
    let after : pos (last + 1) -64 pos 1 ≡ pos last =
      ground (arith, -ℤ-pos (last + 1) 1, wrap64-pos last) in
    ground (arith, d, after, got, m, f, whole)

-- A client that is behind by no more than the threshold, and whose missed events a reliable log
-- still has, is sent exactly the events that it missed, one for each number, up to where the room
-- stands. The next number of the room is within 64 bits.
pub handle_resync_complete :
    (r : RoomReader) (room user : String) (last current oldest threshold : ℕ)
    → IsReliable r room user current oldest
    → last < current
    → current ≤ last + threshold
    → oldest ≤ last + 1
    → current + 1 < 0x8000000000000000
    → (events : List Envelope) × (handle_resync r (pos threshold) room user (pos last)
        ≡ delta_frame (pos (last + 1)) (pos current) events true)
      × (seqs events ≡ run_from (last + 1) (current - last))
handle_resync_complete r room user last current oldest threshold v behind near kept small =
    let (l, got, run) = v.reads last current kept (omega arith) (omega arith) in
    (
      l,
      sends_run r room user last current oldest threshold l v.member v.floor behind near kept small
          got (omega (arith, run_size l _ _ run)) (run_exact l _ _ run),
      run,
    )

-- What the code does not check: for a client that is behind by no more than the threshold and not
-- further than the log reaches, a read that returns any shorter run from the right place is
-- passed on as if it reached to where the room stands, so a client that trusts `toSeq` misses the
-- rest. The next number of the room is within 64 bits.
pub handle_resync_truncated :
    (r : RoomReader) (room user : String) (last current oldest threshold n : ℕ) (l : List Envelope)
    → r.membership room user ≡ some (pos current)
    → r.oldest_retained_seq room ≡ some (pos oldest)
    → last < current
    → current ≤ last + threshold
    → oldest ≤ last + 1
    → current + 1 < 0x8000000000000000
    → r.events_since room (pos last) (pos current) ≡ Read.read l
    → seqs l ≡ run_from (last + 1) n
    → n < current - last
    → handle_resync r (pos threshold) room user (pos last)
      ≡ delta_frame (pos (last + 1)) (pos current) l true
handle_resync_truncated r room user last current oldest threshold n l m f behind near kept small got
      run short =
    sends_run r room user last current oldest threshold l m f behind near kept small got
      (omega (arith, run_size l _ _ run)) (run_exact l _ _ run)
