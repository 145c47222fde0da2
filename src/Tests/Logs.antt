-- ===== src/Tests/Logs.antt =====
-- A room with one event, and the join that follows (server/internal/modules/rooms/roomstest/memstore.go).
use vybe.Base.{arith, ◌≡◌, refl, sym, ap, true, false, Option, some, none, [], ◌∷◌}
use vybe.Base.Int.{ℤ, pos}
use vybe.Realtime.EventLog.{Envelope, validate}
use vybe.Realtime.Resync.Completeness.{IsReliable}
use vybe.Rooms.Lifecycle.{State}
use vybe.Rooms.Log.{
  Room, RoomStore, room_reader, membership_in, is_ended, has_active, append_locked, appended,
  add_participant,
}
use vybe.Rooms.Log.Reader.{room_reader-IsReliable}
use vybe.Rooms.Log.Append.{IsSound, joins, write_room}

abbrev event : ℤ → Envelope
event n = record {
  v = pos 1;
  id = "e";
  room = "r";
  seq = n;
  kind = "PARTICIPANT_JOINED";
  ts = pos 1;
  actor = "u";
  payload = 123 ∷ 125 ∷ [];
}

abbrev room : Room
room = record {
  id = "r";
  content_id = "c";
  host_user_id = "h";
  join_code = 65 ∷ 65 ∷ 65 ∷ 65 ∷ 65 ∷ 65 ∷ [];
  visibility = "private";
  state = State.lobby;
  sync_mode = "COMPANION";
  title = [];
  anchor_server_time = none;
  anchor_offset_ms = pos 0;
  reanchor_count = pos 0;
  max_participants = pos 4;
  current_seq = pos 1;
  created_at = pos 1;
  updated_at = pos 1;
  started_at = none;
  ended_at = none;
  end_reason = "";
}

-- Every id has the same room, with one event.
abbrev store : RoomStore
store = record {
  room_ids = "r" ∷ [];
  content = λ id. true;
  rooms = λ id. some room;
  participants = λ id. [];
  events = λ id. event (pos 1) ∷ [];
}

abbrev room_of : Option Room → Room
room_of none = room
room_of (some r) = r

store-IsSound : IsSound store
store-IsSound id = record {
  gap_free = refl;
  current = λ r h. ap (λ o. (room_of o).current_seq) (sym h);
}

room_reader-IsReliable_example : IsReliable (room_reader (λ id. none) store) "r" "h" 1 1
unfolding room_reader membership_in is_ended has_active
room_reader-IsReliable_example =
    room_reader-IsReliable (λ id. none) store "r" "h" (pos 1) (store-IsSound "r") (omega arith) refl

abbrev store_of : Option RoomStore → RoomStore
store_of none = store
store_of (some s) = s

joined :
    write_room store "r" (joins "u" false (pos 2)) (event (pos 2))
    ≡ some (store_of (write_room store "r" (joins "u" false (pos 2)) (event (pos 2))))
unfolding write_room add_participant append_locked appended validate
joined = refl
