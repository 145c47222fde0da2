-- ===== src/Rooms/Handler.antt =====
-- The HTTP handlers of rooms (server/internal/modules/rooms/handler.go) over the service and the hub, which
-- is the publisher. The caller and the decoded body are arguments: no caller where there is no
-- authentication, a problem where the body does not decode. Times stand unformatted.
pub mod Pages
pub mod Published
pub mod Secrecy
pub mod Atomic
use vybe.Base.{
  ◌+◌, ℕ, Bool, true, false, Option, none, some, List, [], ◌∷◌, ◌++◌, map, if◌then◌else◌, inl, inr,
  ◌⊎◌,
}
use vybe.Base.Int.{ℤ}
use vybe.Base.Json.{runes_of}
use vybe.Base.Text.{String, str_eq, is_empty}
use vybe.Realtime.EventLog.{Envelope}
use vybe.Realtime.Hub.{Hub, publish}
use vybe.Platform.Problems.{
  FieldError, Problem, new_problem, with_detail, with_extra, with_field_error, err_validation,
  err_unauthorized, err_internal,
}
use vybe.Rooms.Lifecycle.{Event, IllegalTransition, JoinError}
use vybe.Rooms.Succession.{Participant}
use vybe.Rooms.JoinCode.{share_url}
use vybe.Rooms.Log.{Room, RoomStore}
use vybe.Rooms.Directory.{participants_of, rooms_for_user}
use vybe.Rooms.Listing.{
  Cursor, Page, new_page, PageQuery, PageParams, parse_page_params, default_page_limit,
  max_page_limit,
}
use vybe.Rooms.Operation.{Service, Mutation, ServiceError, Outcome, state_text, event_text}
use vybe.Rooms.Creation.{CreateInput, create}
use vybe.Rooms.Service.{join_by_code, leave, end, transition, get}
use vybe.Rooms.Answers.{
  ParticipantResponse, RoomResponse, illegal_detail, room_not_found_problem, room_problem,
  to_participant_response, to_room_response,
}

-- What a handler has that is not the repository or the hub: the service, the choice of a `select` in the
-- hub, the clock when the answer is written, and `%q` of `fmt`, which asks which runes can be printed.
pub record Handler : Type 0 where
  pub svc : Service
  pub pick : ℕ → Bool
  pub later : ℤ
  pub quote : String → List ℕ

-- `none` is errUnknownEvent.
unfoldable pub parse_event : String → Option Event
parse_event raw =
    if str_eq raw "ARM"
    then some Event.arm
    else if str_eq raw "START"
    then some Event.start
    else if str_eq raw "REANCHOR"
    then some Event.reanchor
    else if str_eq raw "CANCEL"
    then some Event.cancel
    else if str_eq raw "END"
    then some Event.end
    else none

-- What the handlers change: the repository and the hub.
pub record World : Type 0 where
  pub store : RoomStore
  pub hub : Hub

-- An answer, with its status: a problem has its own.
pub data Reply : Type 0 where
  refusal : Problem → Reply
  shows : (status : ℕ) → RoomResponse → Reply
  lists : Page RoomResponse → Reply

-- A failure to publish is logged, and changes nothing.
unfoldable pub publish_event : (ℕ → Bool) → Hub → Option Envelope → Hub
publish_event pick h none = h
publish_event pick h (some e) = if is_empty e.id then h else (publish pick h e).0

abbrev pub nobody : RoomStore → Room → List Participant
nobody s r = []

abbrev pub everybody : RoomStore → Room → List Participant
everybody s r = participants_of s r.id

-- The end of a handler: the problem of an error, or the event to the hub and the room to the caller.
unfoldable pub answered :
    Handler → Hub → ℕ → Bool → (RoomStore → Room → List Participant) → Outcome → World × Reply
answered h hub status include_code members (Outcome.failed t e) =
    (record { store = t; hub = hub }, Reply.refusal (room_problem e))
answered h hub status include_code members (Outcome.done t m) = (
  record { store = t; hub = publish_event h.pick hub m.event },
  Reply.shows status (to_room_response m.room (members t m.room) include_code h.later),
)

pub record CreateRoomRequest : Type 0 where
  pub content_id : String
  pub title : List ℕ
  pub visibility : List ℕ
  pub sync_mode : List ℕ

abbrev pub create_input : String → CreateRoomRequest → CreateInput
create_input user req = record {
  host_user_id = user;
  content_id = req.content_id;
  title = req.title;
  visibility = req.visibility;
  sync_mode = req.sync_mode;
}

unfoldable pub handle_create :
    Handler → World → String → Problem ⊎ CreateRoomRequest → World × Reply
handle_create h w user (inl p) = (w, Reply.refusal p)
handle_create h w user (inr req) =
    answered h w.hub 201 true nobody (create h.svc w.store (create_input user req))

unfoldable pub handle_join : Handler → World → String → Problem ⊎ List ℕ → World × Reply
handle_join h w user (inl p) = (w, Reply.refusal p)
handle_join h w user (inr raw_code) =
    answered h w.hub 200 true everybody (join_by_code h.svc w.store raw_code user)

unfoldable pub shown : ℤ → Option (Room × List Participant) → Reply
shown later none = Reply.refusal room_not_found_problem
shown later (some p) = Reply.shows 200 (to_room_response p.0 p.1 true later)

unfoldable pub handle_get : Handler → World → String → String → World × Reply
handle_get h w user room = (w, shown h.later (get w.store room user))

unfoldable pub handle_leave : Handler → World → String → String → World × Reply
handle_leave h w user room = answered h w.hub 200 false nobody (leave h.svc w.store room user)

unfoldable pub handle_end : Handler → World → String → String → World × Reply
handle_end h w user room = answered h w.hub 200 false nobody (end h.svc w.store room user)

abbrev pub unknown_event : Handler → String → Problem
unknown_event h raw =
    with_field_error
      (with_detail err_validation (runes_of "Unknown transition " ++ h.quote raw ++ runes_of "."))
      (record {
        field = "event";
        code = "UNKNOWN_EVENT";
        detail = "expected one of ARM, START, REANCHOR, CANCEL, END";
      })

unfoldable pub move_by : Handler → World → String → String → String → Option Event → World × Reply
move_by h w user room raw none = (w, Reply.refusal (unknown_event h raw))
move_by h w user room raw (some ev) =
    answered h w.hub 200 true nobody (transition h.svc w.store room user ev)

unfoldable pub handle_transition :
    Handler → World → String → String → Problem ⊎ String → World × Reply
handle_transition h w user room (inl p) = (w, Reply.refusal p)
handle_transition h w user room (inr raw) = move_by h w user room raw (parse_event raw)

abbrev pub list_item : Handler → Room → RoomResponse
list_item h r = to_room_response r [] true h.later

-- The time of creation reads back from its text as it was.
abbrev pub response_cursor : RoomResponse → Cursor
response_cursor a = record { created_at = a.created_at; id = a.id }

-- The rows behind a cursor.
unfoldable pub found_after : RoomStore → String → Option Cursor → ℕ → List Room
found_after s user none limit = rooms_for_user s user none "" limit
found_after s user (some c) limit = rooms_for_user s user (some c.created_at) c.id limit

unfoldable pub listed : Handler → World → String → Problem ⊎ PageParams → World × Reply
listed h w user (inl p) = (w, Reply.refusal p)
listed h w user (inr params) = (
  w,
  Reply.lists (
      new_page (map (list_item h) (found_after w.store user params.cursor (params.limit + 1)))
        params.limit response_cursor),
)

unfoldable pub handle_list : Handler → World → String → PageQuery → World × Reply
handle_list h w user q =
    listed h w user (parse_page_params h.quote q default_page_limit max_page_limit)

-- A call of a route under /v1/rooms, with the body or the query that it carries.
pub data Call : Type 0 where
  to_create : Problem ⊎ CreateRoomRequest → Call
  to_list : PageQuery → Call
  to_join : Problem ⊎ List ℕ → Call
  to_get to_leave to_end : (room : String) → Call
  to_transition : (room : String) → Problem ⊎ String → Call

unfoldable pub handle_for : Handler → World → String → Call → World × Reply
handle_for h w user (Call.to_create req) = handle_create h w user req
handle_for h w user (Call.to_list q) = handle_list h w user q
handle_for h w user (Call.to_join req) = handle_join h w user req
handle_for h w user (Call.to_get room) = handle_get h w user room
handle_for h w user (Call.to_leave room) = handle_leave h w user room
handle_for h w user (Call.to_end room) = handle_end h w user room
handle_for h w user (Call.to_transition room req) = handle_transition h w user room req

-- The first lines of every handler, which ask who calls.
unfoldable pub as_actor : Option String → World → (String → World × Reply) → World × Reply
as_actor none w next = (w, Reply.refusal err_unauthorized)
as_actor (some user) w next = next user

unfoldable pub handle : Handler → World → Option String → Call → World × Reply
handle h w actor call = as_actor actor w (λ user. handle_for h w user call)
