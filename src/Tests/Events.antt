-- ===== src/Tests/Events.antt =====
-- A room's log, its delivery and its resync (server/internal/modules/realtime).
use vybe.Base.{ℕ, zero, suc, ◌+◌, ◌-◌, ◌≡◌, ◌↔◌, refl, ap, true, some, none, List, [], ◌∷◌, arith}
use vybe.Base.Int.{pos, ◌≤ℤ◌, ◌<ℤ◌, ◌+ℤ◌, pos_part}
use vybe.Realtime.EventLog.{Envelope, ResyncMode, decide_resync}
use vybe.Realtime.EventLog.Contiguity.{seqs, run_from}
use vybe.Realtime.EventLog.Decision.{decide_resync-delta}
use vybe.Realtime.Dedupe.{new_dedupe_lru, seen}
use vybe.Realtime.Dedupe.Invariant.{IsValid, new_dedupe_lru-IsValid}
use vybe.Realtime.Dedupe.Window.{view, observe_id, seen_lem}
use vybe.Realtime.Resync.{Read, RoomReader, delta_frame, handle_resync}
use vybe.Realtime.Resync.Completeness.{IsReliable, handle_resync_complete, handle_resync_truncated}

abbrev numbered : ℕ → Envelope
numbered n = record {
  v = pos 1;
  id = "e";
  room = "r";
  seq = pos n;
  kind = "CHAT";
  ts = pos 1;
  actor = "u";
  payload = 123 ∷ 125 ∷ [];
}

-- The events first, first + 1, …
abbrev stored : ℕ → ℕ → List Envelope
stored first zero = []
stored first (suc n) = numbered first ∷ stored (first + 1) n

stored-run : (first n : ℕ) → seqs (stored first n) ≡ run_from first n
stored-run first zero = refl
stored-run first (suc n) = ap (◌∷◌ (pos first)) (stored-run (first + 1) n)

-- A room at 9 that has kept everything, and one whose reads stop after one event.
abbrev reader : (ℕ → ℕ → List Envelope) → RoomReader
reader take_events = record {
  membership = λ room user. some (pos 9);
  events_since = λ room after to. Read.read (take_events (pos_part after) (pos_part to));
  oldest_retained_seq = λ room. some (pos 1);
  snapshot = λ room. none;
}

abbrev whole_log : RoomReader
whole_log = reader (λ after to. stored (after + 1) (to - after))

abbrev short_log : RoomReader
short_log = reader (λ after to. stored (after + 1) 1)

whole_log-IsReliable : IsReliable whole_log "r" "u" 9 1
whole_log-IsReliable = record {
  member = refl;
  floor = refl;
  reads = λ after to h f k.
      (stored (after + 1) (to - after), refl, stored-run (after + 1) (to - after));
}

decide_resync-delta_example :
    ((decide_resync (pos 5) (pos 9) (pos 1) (pos 500)).mode ≡ ResyncMode.delta)
    ↔ ((pos 5 <ℤ pos 9) × (pos 9 ≤ℤ pos 5 +ℤ pos 500) × (pos 1 ≤ℤ pos 5 +ℤ pos 1))
decide_resync-delta_example =
    decide_resync-delta (pos 5) (pos 9) (pos 1) (pos 500) (omega arith, omega arith)
      (omega arith, omega arith) (omega arith) (omega arith)

seen_lem_example :
    let d = new_dedupe_lru (pos 2) in
    IsValid (seen d "a").0
    × ((seen d "a").0.capacity ≡ d.capacity)
    × (view (seen d "a").0 ≡ (observe_id d.capacity (view d) "a").0)
    × ((seen d "a").1 ≡ (observe_id d.capacity (view d) "a").1)
seen_lem_example = seen_lem (new_dedupe_lru (pos 2)) "a" (new_dedupe_lru-IsValid (pos 2))

handle_resync_complete_example :
    (events : List Envelope) × (handle_resync whole_log (pos 500) "r" "u" (pos 5)
      ≡ delta_frame (pos 6) (pos 9) events true)
    × (seqs events ≡ run_from 6 4)
handle_resync_complete_example =
    handle_resync_complete whole_log "r" "u" 5 9 1 500 whole_log-IsReliable (omega arith)
      (omega arith) (omega arith) (omega arith)

handle_resync_truncated_example :
    handle_resync short_log (pos 500) "r" "u" (pos 5)
    ≡ delta_frame (pos 6) (pos 9) (numbered 6 ∷ []) true
handle_resync_truncated_example =
    handle_resync_truncated short_log "r" "u" 5 9 1 500 1 (numbered 6 ∷ []) refl refl (omega arith)
      (omega arith) (omega arith) (omega arith) refl refl (omega arith)
