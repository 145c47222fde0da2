-- ===== src/Rooms/Operation.antt =====
-- What an operation of the rooms service works with and answers, and the events that it makes
-- (server/internal/modules/rooms/service.go). What its calls answer that are not the repository's is a
-- record, `Service`: the clock, read once, the ids and codes drawn in order, and the entitlement of a user,
-- `none` where the lookup fails.
use vybe.Base.{ℕ, Option, none, some, List}
use vybe.Base.Int.{ℤ}
use vybe.Base.Text.{String}
use vybe.Base.Json.{json_object}
use vybe.Realtime.EventLog.{Envelope, Invalid, envelope_version}
use vybe.Rooms.Lifecycle.{State, Event, IllegalTransition, JoinError}
use vybe.Rooms.Log.{Room, RoomStore}

pub record Service : Type 0 where
  pub now : ℤ
  pub new_id : ℕ → String
  pub new_code : List (Option (List ℕ))
  pub entitlement_tier : String → Option String
  pub upper_rune : ℕ → ℕ

-- `event` none is the zero Envelope.
pub record Mutation : Type 0 where
  pub room : Room
  pub event : Option Envelope

-- The errors; `write_failed` is a panic of the repository, or a write that finds no room.
pub data ServiceError : Type 0 where
  room_not_found not_a_participant not_the_host already_joined content_not_found : ServiceError
  join_code_conflict invalid_title invalid_sync_mode no_entitlement no_code : ServiceError
  refused : JoinError → ServiceError
  illegal_transition : IllegalTransition → ServiceError
  bad_event : Invalid → ServiceError
  write_failed : ServiceError

-- What an operation answers, with the store as it leaves it.
pub data Outcome : Type 0 where
  done : RoomStore → Mutation → Outcome
  failed : RoomStore → ServiceError → Outcome

-- The end of an operation: its write, from the store before it.
unfoldable pub wrote : RoomStore → Mutation → Option RoomStore → Outcome
wrote s m none = Outcome.failed s ServiceError.write_failed
wrote s m (some t) = Outcome.done t m

unfoldable pub envelope :
    String → String → ℤ → String → String → ℤ → List (String × String) → Envelope
envelope id room seq kind actor ts payload = record {
  v = envelope_version;
  id = id;
  room = room;
  seq = seq;
  kind = kind;
  ts = ts;
  actor = actor;
  payload = json_object payload;
}

abbrev pub state_text : State → String
state_text State.lobby = "LOBBY"
state_text State.ready = "READY"
state_text State.playing = "PLAYING"
state_text State.ended = "ENDED"
state_text (State.other t) = t

abbrev pub event_text : Event → String
event_text Event.arm = "ARM"
event_text Event.start = "START"
event_text Event.reanchor = "REANCHOR"
event_text Event.end = "END"
event_text Event.cancel = "CANCEL"
event_text (Event.other t) = t
