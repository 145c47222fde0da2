-- ===== src/Rooms/Answers.antt =====
-- What the HTTP handlers of rooms answer: a room, or the problem of an error
-- (server/internal/modules/rooms/handler.go). Times stand unformatted.
use vybe.Base.{ℕ, Bool, Option, List, [], ◌++◌, map, if◌then◌else◌}
use vybe.Base.Int.{ℤ}
use vybe.Base.Json.{runes_of}
use vybe.Base.Text.{String}
use vybe.Platform.Problems.{
  Problem, new_problem, with_detail, with_extra, with_field_error, err_validation, err_internal,
}
use vybe.Rooms.Lifecycle.{IllegalTransition, JoinError}
use vybe.Rooms.Succession.{Participant}
use vybe.Rooms.JoinCode.{share_url}
use vybe.Rooms.Log.{Room}
use vybe.Rooms.Operation.{ServiceError, state_text, event_text}

pub record ParticipantResponse : Type 0 where
  pub user_id : String
  pub is_host : Bool
  pub connected : Bool
  pub joined_at : ℤ

pub record RoomResponse : Type 0 where
  pub id : String
  pub content_id : String
  pub host_user_id : String
  pub join_code : List ℕ
  pub share_url : List ℕ
  pub visibility : String
  pub state : String
  pub sync_mode : String
  pub title : List ℕ
  pub max_participants : ℤ
  pub current_seq : ℤ
  pub anchor_server_time : Option ℤ
  pub anchor_offset_ms : ℤ
  pub reanchor_count : ℤ
  pub created_at : ℤ
  pub started_at : Option ℤ
  pub ended_at : Option ℤ
  pub end_reason : String
  pub participants : List ParticipantResponse
  pub server_time : ℤ

abbrev pub to_participant_response : Participant → ParticipantResponse
to_participant_response p = record {
  user_id = p.user_id;
  is_host = p.is_host;
  connected = p.connected;
  joined_at = p.joined_at;
}

abbrev pub to_room_response : Room → List Participant → Bool → ℤ → RoomResponse
to_room_response r participants include_code now = record {
  id = r.id;
  content_id = r.content_id;
  host_user_id = r.host_user_id;
  join_code = if include_code then r.join_code else [];
  share_url = if include_code then share_url r.join_code else [];
  visibility = r.visibility;
  state = state_text r.state;
  sync_mode = r.sync_mode;
  title = r.title;
  max_participants = r.max_participants;
  current_seq = r.current_seq;
  anchor_server_time = r.anchor_server_time;
  anchor_offset_ms = r.anchor_offset_ms;
  reanchor_count = r.reanchor_count;
  created_at = r.created_at;
  started_at = r.started_at;
  ended_at = r.ended_at;
  end_reason = r.end_reason;
  participants = map to_participant_response participants;
  server_time = now;
}

abbrev pub room_not_found_problem : Problem
room_not_found_problem =
    new_problem 404 "ROOM_NOT_FOUND" "Room Not Found" "No such room, or you are not a member of it."

abbrev pub illegal_detail : IllegalTransition → List ℕ
illegal_detail i =
    runes_of "Cannot "
    ++ runes_of (event_text i.event)
    ++ runes_of " from "
    ++ runes_of (state_text i.from)
    ++ runes_of "."

-- Errors that have no case of their own are internal ones; so is a panic, for the server's recoverer.
unfoldable pub room_problem : ServiceError → Problem
room_problem ServiceError.room_not_found = room_not_found_problem
room_problem (ServiceError.refused JoinError.room_full) =
    new_problem 409 "ROOM_FULL" "Room Full" "This room has reached its participant limit."
room_problem (ServiceError.refused JoinError.room_ended) =
    new_problem 409 "ROOM_ENDED" "Room Ended" "This room has already ended."
room_problem ServiceError.already_joined =
    new_problem 409 "ALREADY_JOINED" "Already Joined" "You are already in this room."
room_problem ServiceError.not_the_host =
    new_problem 403 "NOT_THE_HOST" "Not The Host" "Only the host can do that."
room_problem ServiceError.not_a_participant =
    new_problem 403 "NOT_A_PARTICIPANT" "Not A Participant" "You are not in this room."
room_problem (ServiceError.illegal_transition i) =
    with_extra
      (with_extra
        (with_detail
          (new_problem 409 "ILLEGAL_TRANSITION" "Illegal Transition"
            "That action is not available from the room's current state.")
          (illegal_detail i))
        "fromState" (state_text i.from))
      "attemptedEvent" (event_text i.event)
room_problem ServiceError.content_not_found =
    with_field_error
      (new_problem 422 "CONTENT_NOT_FOUND" "Content Not Found" "No such title in the catalogue.")
      (record { field = "contentId"; code = "NOT_FOUND"; detail = "no such content" })
room_problem ServiceError.join_code_conflict =
    new_problem 503 "JOIN_CODE_UNAVAILABLE" "Join Code Unavailable"
      "Could not allocate a join code. Try again."
room_problem ServiceError.invalid_title =
    with_field_error
      (with_detail err_validation (runes_of "The title must be at most 120 characters."))
      (record { field = "title"; code = "TOO_LONG"; detail = "over the maximum length" })
room_problem ServiceError.invalid_sync_mode =
    with_field_error
      (with_detail err_validation (runes_of "The sync mode must be COMPANION or MANUAL."))
      (record { field = "syncMode"; code = "INVALID"; detail = "unrecognised mode" })
room_problem ServiceError.no_entitlement = err_internal
room_problem ServiceError.no_code = err_internal
room_problem (ServiceError.bad_event i) = err_internal
room_problem ServiceError.write_failed = err_internal
