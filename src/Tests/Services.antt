-- ===== src/Tests/Services.antt =====
-- A room that is opened, joined and left (server/internal/modules/rooms/service.go).
use vybe.Base.{
  ◌≡◌, refl, true, false, some, none, [], ◌∷◌, ℕ, zero, suc, All, get_elem?, take, ◌<◌, arith,
}
use vybe.Base.Int.{pos}
use vybe.Base.Json.{json_object}
use vybe.Base.Bytes.{bytes_eq}
use vybe.Base.Runes.{trim_space, trim_left, trim_right, is_space}
use vybe.Base.Text.{String, is_empty}
use vybe.Realtime.EventLog.{validate, contains_text}
use vybe.Rooms.Lifecycle.{Event, State, max_participants, can_join, is_terminal}
use vybe.Rooms.JoinCode.{parse_join_code, collect, place, to_upper, contains_rune}
use vybe.Rooms.Log.{
  Room, RoomStore, with_entry, numbered, appended, append_locked, next_seq, add_participant,
  is_departed, is_ended,
}
use vybe.Rooms.Directory.{
  live_with, first_live, room_by_join_code, join_code_taken, with_key, create_room, active_in_order,
  seat, is_active, participants_of, rooms_with, place_room,
}
use vybe.Rooms.Operation.{Service, Mutation, Outcome, wrote, envelope}
use vybe.Rooms.Creation.{
  CreateInput, normalise_sync_mode, draw_code, allocate_join_code, opened_room, create_checked,
  create_coded, create_for, create_in_mode, create,
}
use vybe.Rooms.Service.{
  contains, admit, admit_under, join_found, join_parsed, join_by_code, end, transition, leave,
}
use vybe.Rooms.Service.Requests.{
  HasDistinctKeys, IsKept, IsReady, creates, leaves_room, serve, store_after,
}
use vybe.Rooms.Service.Kept.{Keeps, serve-Keeps}
use vybe.Rooms.Service.Permissions.{is_done, serve-may}
use vybe.Rooms.Service.Capacity.{IsAdmitted, join_by_code-IsAdmitted}
use vybe.Rooms.Service.Hosting.{IsLeft, leave-IsLeft}
use vybe.Rooms.Service.Joining.{room_by_join_code-own}
use vybe.Rooms.Service.Codes.{IsTaken, allocate_join_code_lem}
use vybe.Rooms.Service.Endings.{IsNamed, Did, end_two_ways}
use vybe.Rooms.Listing.Order.{IsNewestFirst}
use vybe.Rooms.Listing.Walk.{walk, walk_complete}
use vybe.Rooms.Log.Append.{write_room, hands_over}
use vybe.Rooms.Log.Exact.{IsOutcome, write_room-IsWritten}

-- An id for the room and another for each event.
unfoldable pub new_id : ℕ → String
new_id zero = "r"
new_id (suc n) = "e"

abbrev opener : Service
opener = record {
  now = pos 5;
  new_id = new_id;
  new_code = some (65 ∷ 65 ∷ 65 ∷ 65 ∷ 65 ∷ 65 ∷ []) ∷ [];
  entitlement_tier = λ user. some "free";
  upper_rune = λ r. r;
}

abbrev empty : RoomStore
empty = record {
  room_ids = [];
  rooms = λ id. none;
  content = λ id. true;
  participants = λ id. [];
  events = λ id. [];
}

no_keys : HasDistinctKeys []
unfolding HasDistinctKeys
no_keys = tt

empty-IsKept : IsKept empty
empty-IsKept = record {
  distinct_keys = no_keys;
  sound = λ j. record { gap_free = refl; current = λ r h. absurd (no_room r h) };
  keyed = λ j r h. absurd (no_room r h);
  named = λ j r h. absurd (no_room r h);
  listed = λ j r h. absurd (no_room r h);
  unlogged = λ j h. refl;
  unique_codes = λ i j q r h k a b c. absurd (no_room q h);
}
  where
    no_room : (r : Room) → none ≡ some r → ⊥
    no_room r h = cc

ids_named : (n : ℕ) → is_empty (new_id n) ≡ false
unfolding new_id
ids_named zero = refl
ids_named (suc n) = refl

opener-IsReady : IsReady opener empty
opener-IsReady = record { clock = refl; ids = ids_named; fresh = refl }

abbrev input : CreateInput
input = record { host_user_id = "h"; content_id = "c"; title = []; visibility = []; sync_mode = [] }

abbrev outcome : Outcome
outcome = serve opener empty (creates input)

abbrev pub one_room : RoomStore
one_room = store_after outcome

serve-Keeps_example : Keeps empty outcome
serve-Keeps_example = serve-Keeps opener empty (creates input) empty-IsKept opener-IsReady

row :
    (r : Room) × (one_room.rooms "r" ≡ some r) × (r.host_user_id ≡ "h") × (is_ended r.state ≡ false)
unfolding serve create create_in_mode create_for create_coded create_checked create_room
    normalise_sync_mode trim_space trim_left trim_right bytes_eq allocate_join_code draw_code
    join_code_taken first_live opened_room envelope validate json_object append_locked appended
    with_entry numbered new_id is_ended
row = (_, refl, refl, refl)

IsKept-of : (o : Outcome) → Keeps empty o → is_done o ≡ true → IsKept (store_after o)
IsKept-of (Outcome.done t m) h k = h.0
IsKept-of (Outcome.failed t e) h k = absurd cc

pub one_room-IsKept : IsKept one_room
unfolding serve create create_in_mode create_for create_coded create_checked create_room
    normalise_sync_mode trim_space trim_left trim_right bytes_eq allocate_join_code draw_code
    join_code_taken first_live opened_room envelope validate json_object append_locked appended
    with_entry new_id
one_room-IsKept =
    IsKept-of outcome (serve-Keeps opener empty (creates input) empty-IsKept opener-IsReady) refl

abbrev pub later : Service
later = record {
  now = pos 6;
  new_id = λ n. "e";
  new_code = some (65 ∷ 65 ∷ 65 ∷ 65 ∷ 65 ∷ 65 ∷ []) ∷ some (66 ∷ 65 ∷ 65 ∷ 65 ∷ 65 ∷ 65 ∷ []) ∷ [];
  entitlement_tier = λ user. some "free";
  upper_rune = λ r. r;
}

pub later-IsReady : IsReady later one_room
unfolding serve create create_in_mode create_for create_coded create_checked create_room
    normalise_sync_mode trim_space trim_left trim_right bytes_eq allocate_join_code draw_code
    join_code_taken first_live opened_room envelope validate json_object append_locked appended
    with_entry numbered new_id
later-IsReady = record { clock = refl; ids = λ n. refl; fresh = refl }

mutation_of : Outcome → Mutation
mutation_of (Outcome.done t m) = m
mutation_of (Outcome.failed t e) = record { room = row.0; event = none }

done_of : (o : Outcome) → is_done o ≡ true → o ≡ Outcome.done (store_after o) (mutation_of o)
unfolding mutation_of
done_of (Outcome.done t m) h = refl
done_of (Outcome.failed t e) h = absurd cc

abbrev joined : Outcome
joined = join_by_code later one_room (65 ∷ 97 ∷ 65 ∷ 45 ∷ 65 ∷ 65 ∷ 65 ∷ []) "g"

join_by_code-IsAdmitted_example :
    IsAdmitted later one_room
      (store_after joined)
      (mutation_of joined).room.id
      (mutation_of joined).room.host_user_id
      "g"
unfolding serve create create_in_mode create_for create_coded create_checked create_room
    normalise_sync_mode trim_space trim_left trim_right bytes_eq allocate_join_code draw_code
    join_code_taken first_live opened_room envelope validate json_object append_locked appended
    with_entry numbered new_id is_ended join_by_code join_parsed join_found parse_join_code collect
    place to_upper contains_rune room_by_join_code live_with participants_of active_in_order
    is_active is_departed seat contains admit_under admit can_join is_terminal max_participants
    next_seq add_participant wrote is_space with_key contains_text
join_by_code-IsAdmitted_example =
    join_by_code-IsAdmitted later one_room (store_after joined) (mutation_of joined)
      (65 ∷ 97 ∷ 65 ∷ 45 ∷ 65 ∷ 65 ∷ 65 ∷ []) "g" one_room-IsKept later-IsReady
      (done_of joined refl)

leave-IsLeft_example :
    (t : RoomStore) × (m : Mutation) × (leave later one_room "r" "h" ≡ Outcome.done t m)
    × IsLeft row.0 t m "r" "h"
unfolding serve create create_in_mode create_for create_coded create_checked create_room
    normalise_sync_mode trim_space trim_left trim_right bytes_eq allocate_join_code draw_code
    join_code_taken first_live opened_room envelope validate json_object append_locked appended
    with_entry numbered new_id participants_of active_in_order is_active is_departed seat contains
leave-IsLeft_example =
    leave-IsLeft later one_room row.0 "r" "h" row.1 refl one_room-IsKept later-IsReady

serve-may_example :
    is_done (serve later one_room (leaves_room "r" "h"))
    ≡ contains (participants_of one_room "r") "h"
serve-may_example =
    serve-may later one_room row.0 "r" (leaves_room "r" "h") refl row.1 one_room-IsKept
      later-IsReady

room_by_join_code-own_example : room_by_join_code one_room (row.0).join_code ≡ some row.0
room_by_join_code-own_example = room_by_join_code-own one_room "r" row.0 one_room-IsKept row.1 row.3

allocate_join_code_lem_example :
    (k : ℕ) × (k < 5)
    × (get_elem? later.new_code k ≡ some (some (66 ∷ 65 ∷ 65 ∷ 65 ∷ 65 ∷ 65 ∷ [])))
    × All (IsTaken one_room) (take k later.new_code)
    × (join_code_taken one_room (66 ∷ 65 ∷ 65 ∷ 65 ∷ 65 ∷ 65 ∷ []) ≡ false)
unfolding serve create create_in_mode create_for create_coded create_checked create_room
    normalise_sync_mode trim_space trim_left trim_right bytes_eq allocate_join_code draw_code
    join_code_taken first_live opened_room envelope validate json_object append_locked appended
    with_entry numbered new_id is_ended live_with with_key contains_text
allocate_join_code_lem_example =
    allocate_join_code_lem later one_room (66 ∷ 65 ∷ 65 ∷ 65 ∷ 65 ∷ 65 ∷ []) refl

write_room-IsWritten_example :
    let e = envelope "e" "r" (next_seq one_room "r") "HOST_CHANGED" "" (pos 6) [] in
    IsOutcome one_room "r" row.0 (hands_over "g") e (write_room one_room "r" (hands_over "g") e)
write_room-IsWritten_example =
    write_room-IsWritten one_room "r" row.0 (hands_over "g")
      (envelope "e" "r" (next_seq one_room "r") "HOST_CHANGED" "" (pos 6) []) row.1

is_named : IsNamed (row.0).state
unfolding serve create create_in_mode create_for create_coded create_checked create_room
    normalise_sync_mode trim_space trim_left trim_right bytes_eq allocate_join_code draw_code
    join_code_taken first_live opened_room envelope validate json_object append_locked appended
    with_entry numbered new_id row
is_named = tt

end_two_ways_example :
    let seq = next_seq one_room "r" in
    let r = row.0 in
    Did
      (end later one_room "r" "h")
      "r"
      (record r {
        state = State.ended;
        ended_at = some (pos 6);
        end_reason = "host_ended";
        current_seq = next_seq one_room r.id;
        updated_at = pos 6;
      })
      (record r {
        state = State.ended;
        ended_at = some (pos 6);
        end_reason = "host_ended";
        current_seq = next_seq one_room r.id;
      })
      "ROOM_ENDED"
    × Did
        (transition later one_room "r" "h" Event.end)
        "r"
        (record r { state = State.ended; current_seq = seq; updated_at = pos 6 })
        (record r { state = State.ended; current_seq = seq })
        "ROOM_STATE_CHANGED"
unfolding row
end_two_ways_example =
    end_two_ways later one_room row.0 "r" "h" row.1 refl is_named one_room-IsKept later-IsReady

walk_complete_example :
    (walk 3 one_room "h" none 1 ≡ rooms_with one_room "h" one_room.room_ids)
    × IsNewestFirst (rooms_with one_room "h" one_room.room_ids)
unfolding serve create create_in_mode create_for create_coded create_checked create_room
    normalise_sync_mode trim_space trim_left trim_right bytes_eq allocate_join_code draw_code
    join_code_taken first_live opened_room envelope validate json_object append_locked appended
    with_entry numbered new_id rooms_with place_room with_key contains_text
walk_complete_example = walk_complete 3 one_room "h" 1 one_room-IsKept (omega arith) (omega arith)
