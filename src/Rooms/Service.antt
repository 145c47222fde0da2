-- ===== src/Rooms/Service.antt =====
-- The rooms service over the in-memory repository (server/internal/modules/rooms/service.go): join, leave,
-- end, transition and get; a room is opened in Rooms/Creation.
pub mod Requests
pub mod Writes
pub mod Settled
pub mod Codes
pub mod Joining
pub mod Opening
pub mod Kept
pub mod Cases
pub mod Logged
pub mod Capacity
pub mod Permissions
pub mod Endings
pub mod Members
pub mod Hosting
use vybe.Rooms.Operation.{
  wrote, envelope, state_text, event_text, Service, Mutation, ServiceError, Outcome,
}
use vybe.Base.{
  ℕ, ◌&&◌, Bool, true, false, not, Option, none, some, List, [], ◌∷◌, if◌then◌else◌, map, ltb, zero,
  suc, length, ◌||◌, leb, ◌+◌,
}
use vybe.Base.Int.{ℤ, pos}
use vybe.Base.Text.{String, str_eq}
use vybe.Base.Bytes.{bytes_eq}
use vybe.Base.Json.{json_object, runes_of}
use vybe.Base.Runes.{trim_space}
use vybe.Realtime.EventLog.{Envelope, Invalid, envelope_version, validate}
use vybe.Rooms.Lifecycle.{
  State, Event, IllegalTransition, Result, next, JoinError, can_join, max_participants,
}
use vybe.Rooms.Succession.{Participant, successor_for}
use vybe.Rooms.JoinCode.{to_upper, parse_join_code}
use vybe.Rooms.Log.{
  Room, RoomStore, next_seq, add_participant, remove_participant, transfer_host, set_state,
  end_room, is_ended,
}
use vybe.Rooms.Directory.{
  CreateResult, create_room, join_code_taken, room_by_join_code, participants_of,
}

unfoldable pub contains : List Participant → String → Bool
contains [] user = false
contains (p ∷ l) user = str_eq p.user_id user || contains l user

unfoldable pub without : List Participant → String → List Participant
without [] user = []
without (p ∷ l) user = let rest = without l user in if str_eq p.user_id user then rest else p ∷ rest

unfoldable pub admit : Option JoinError → Service → RoomStore → Room → String → Outcome
admit (some e) svc s r user = Outcome.failed s (ServiceError.refused e)
admit none svc s r user =
    let seq = next_seq s r.id in
    let e =
      envelope (svc.new_id 0) r.id seq "PARTICIPANT_JOINED" user svc.now
        (("role", "participant") ∷ ("userId", user) ∷ []) in
    wrote s (record { room = record r { current_seq = seq }; event = some e })
      (add_participant s r.id user false svc.now e)

unfoldable pub admit_under : Option String → Service → RoomStore → Room → String → Outcome
admit_under none svc s r user = Outcome.failed s ServiceError.no_entitlement
admit_under (some tier) svc s r user =
    admit (can_join r.state tier (pos (length (participants_of s r.id)))) svc s r user

unfoldable pub join_found : Option Room → Service → RoomStore → String → Outcome
join_found none svc s user = Outcome.failed s ServiceError.room_not_found
join_found (some r) svc s user =
    if contains (participants_of s r.id) user
    then Outcome.failed s ServiceError.already_joined
    else admit_under (svc.entitlement_tier r.host_user_id) svc s r user

unfoldable pub join_parsed : Option (List ℕ) → Service → RoomStore → String → Outcome
join_parsed none svc s user = Outcome.failed s ServiceError.room_not_found
join_parsed (some code) svc s user = join_found (room_by_join_code s code) svc s user

unfoldable pub join_by_code : Service → RoomStore → List ℕ → String → Outcome
join_by_code svc s raw_code user = join_parsed (parse_join_code svc.upper_rune raw_code) svc s user

-- `endRoom`; `id` is the id of its event.
unfoldable pub end_room_as : Service → String → RoomStore → Room → String → Outcome
end_room_as svc id s r reason =
    let seq = next_seq s r.id in
    let e =
      envelope id r.id seq "ROOM_ENDED" "" svc.now
        (("from", state_text r.state) ∷ ("reason", reason) ∷ []) in
    wrote s
      (record {
        room = record r {
          state = State.ended;
          ended_at = some svc.now;
          end_reason = reason;
          current_seq = seq;
        };
        event = some e;
      })
      (end_room s r.id reason svc.now e)

abbrev pub host_change : Service → RoomStore → String → String → String → Envelope
host_change svc s room user successor =
    envelope (svc.new_id 1) room (next_seq s room) "HOST_CHANGED" "" svc.now
      (("newHostId", successor) ∷ ("previousHostId", user) ∷ ("reason", "host_left") ∷ [])

unfoldable pub hand_over : Service → RoomStore → Room → String → String → String → Outcome
hand_over svc s r room user successor =
    if str_eq successor ""
    then end_room_as svc (svc.new_id 1) s r "reaper_abandoned"
    else wrote s
        (record {
          room = record r { host_user_id = successor; current_seq = next_seq s room };
          event = some (host_change svc s room user successor);
        })
        (transfer_host s room successor (host_change svc s room user successor))

unfoldable pub left :
    Option RoomStore
    → Service
    → RoomStore
    → Room
    → List Participant
    → String
    → String
    → Envelope
    → Outcome
left none svc s r ps room user e = Outcome.failed s ServiceError.write_failed
left (some t) svc s r ps room user e =
    let stands = record r { current_seq = e.seq } in
    if str_eq user r.host_user_id
    then hand_over svc t stands room user (successor_for (without ps user) svc.now)
    else Outcome.done t (record { room = stands; event = some e })

abbrev pub departure : Service → RoomStore → String → String → Envelope
departure svc s room user =
    envelope (svc.new_id 0) room (next_seq s room) "PARTICIPANT_LEFT" user svc.now
      (("userId", user) ∷ [])

unfoldable pub leave_found : Option Room → Service → RoomStore → String → String → Outcome
leave_found none svc s room user = Outcome.failed s ServiceError.room_not_found
leave_found (some r) svc s room user =
    if contains (participants_of s room) user
    then left (remove_participant s room user svc.now (departure svc s room user)) svc s r
        (participants_of s room) room user (departure svc s room user)
    else Outcome.failed s ServiceError.not_a_participant

unfoldable pub leave : Service → RoomStore → String → String → Outcome
leave svc s room user = leave_found (s.rooms room) svc s room user

unfoldable pub end_found : Option Room → Service → RoomStore → String → Outcome
end_found none svc s user = Outcome.failed s ServiceError.room_not_found
end_found (some r) svc s user =
    if not (str_eq r.host_user_id user)
    then Outcome.failed s ServiceError.not_the_host
    else if is_ended r.state
    then Outcome.done s (record { room = r; event = none })
    else end_room_as svc (svc.new_id 0) s r "host_ended"

unfoldable pub end : Service → RoomStore → String → String → Outcome
end svc s room user = end_found (s.rooms room) svc s user

unfoldable pub move_to :
    Result State → Service → RoomStore → Room → String → String → Event → Outcome
move_to (Result.illegal i) svc s r room user ev =
    Outcome.failed s (ServiceError.illegal_transition i)
move_to (Result.ok to) svc s r room user ev =
    let seq = next_seq s room in
    let e =
      envelope (svc.new_id 0) room seq "ROOM_STATE_CHANGED" user svc.now
        (("event", event_text ev) ∷ ("from", state_text r.state) ∷ ("to", state_text to) ∷ []) in
    wrote s (record { room = record r { state = to; current_seq = seq }; event = some e })
      (set_state s room to svc.now e)

unfoldable pub transition_found :
    Option Room → Service → RoomStore → String → String → Event → Outcome
transition_found none svc s room user ev = Outcome.failed s ServiceError.room_not_found
transition_found (some r) svc s room user ev =
    if not (str_eq r.host_user_id user)
    then Outcome.failed s ServiceError.not_the_host
    else move_to (next r.state ev) svc s r room user ev

unfoldable pub transition : Service → RoomStore → String → String → Event → Outcome
transition svc s room user ev = transition_found (s.rooms room) svc s room user ev

-- `none` is ErrRoomNotFound.
unfoldable pub get_found :
    Option Room → RoomStore → String → String → Option (Room × List Participant)
get_found none s room viewer = none
get_found (some r) s room viewer =
    if not (contains (participants_of s room) viewer) && not (str_eq r.host_user_id viewer)
    then none
    else some (r, participants_of s room)

unfoldable pub get : RoomStore → String → String → Option (Room × List Participant)
get s room viewer = get_found (s.rooms room) s room viewer
