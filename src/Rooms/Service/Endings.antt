-- ===== src/Rooms/Service/Endings.antt =====
-- The two ways in which a host ends a room, and what a start reports
-- (server/internal/modules/rooms/service.go).
use vybe.Base.{◌≡◌, refl, sym, ap, ◌∙◌, true, false, some, [], ◌∷◌, length}
use vybe.Base.Text.{String, str_eq}
use vybe.Realtime.EventLog.{Envelope}
use vybe.Rooms.Lifecycle.{State, Event, Result, next}
use vybe.Rooms.Log.{Room, RoomStore, next_seq, is_ended, first_start}
use vybe.Rooms.Log.Append.{moves, ends, write_room}
use vybe.Rooms.Log.Applied.{write_room-IsApplied}
use vybe.Rooms.Operation.{Service, Mutation, Outcome, wrote, envelope, event_text, state_text}
use vybe.Rooms.Service.{end_room_as, end_found, end, move_to, transition_found, transition}
use vybe.Rooms.Service.Requests.{IsKept, IsReady, envelope-valid}

-- The host's request succeeded: the row stored, the room reported and the event.
pub record Did (o : Outcome) (room : String) (stored reported : Room) (kind : String) : Type 0 where
  pub store : RoomStore
  pub mutation : Mutation
  pub event : Envelope
  pub is : o ≡ Outcome.done store mutation
  pub row : store.rooms room ≡ some stored
  pub report : mutation.room ≡ reported
  pub published : mutation.event ≡ some event
  pub named : event.kind ≡ kind

transition-Did :
    (svc : Service) (s : RoomStore) (r : Room) (room user : String) (ev : Event) (to : State)
    → s.rooms room ≡ some r
    → str_eq r.host_user_id user ≡ true
    → next r.state ev ≡ Result.ok to
    → IsKept s
    → IsReady svc s
    → Did
        (transition svc s room user ev)
        room
        (record r {
          state = to;
          started_at = first_start to r.started_at svc.now;
          current_seq = next_seq s room;
          updated_at = svc.now;
        })
        (record r { state = to; current_seq = next_seq s room })
        "ROOM_STATE_CHANGED"
unfolding transition transition_found move_to wrote write_room next_seq envelope
transition-Did svc s r room user ev to found host ok v ready =
    let seq = next_seq s room in
    let e =
      envelope (svc.new_id 0) room seq "ROOM_STATE_CHANGED" user svc.now
        (("event", event_text ev) ∷ ("from", state_text r.state) ∷ ("to", state_text to) ∷ []) in
    let valid =
      envelope-valid (svc.new_id 0) room "ROOM_STATE_CHANGED" user (length (s.events room)) svc.now
        _ (ready.ids 0) (v.named room r found) refl ready.clock in
    let (t, is, written) = write_room-IsApplied s room r (moves to svc.now) e found refl valid in
    record {
      store = t;
      mutation = record { room = record r { state = to; current_seq = seq }; event = some e };
      event = e;
      is = rw (found, host, ok, is) refl;
      row = written.row;
      report = refl;
      published = refl;
      named = refl;
    }

end-Did :
    (svc : Service) (s : RoomStore) (r : Room) (room user : String)
    → s.rooms room ≡ some r
    → str_eq r.host_user_id user ≡ true
    → is_ended r.state ≡ false
    → IsKept s
    → IsReady svc s
    → Did
        (end svc s room user)
        room
        (record r {
          state = State.ended;
          ended_at = some svc.now;
          end_reason = "host_ended";
          current_seq = next_seq s r.id;
          updated_at = svc.now;
        })
        (record r {
          state = State.ended;
          ended_at = some svc.now;
          end_reason = "host_ended";
          current_seq = next_seq s r.id;
        })
        "ROOM_ENDED"
unfolding end end_found end_room_as wrote write_room next_seq envelope
end-Did svc s r room user found host live v ready =
    let here : s.rooms r.id ≡ some r = ap s.rooms (v.keyed room r found) ∙ found in
    let seq = next_seq s r.id in
    let e =
      envelope (svc.new_id 0) r.id seq "ROOM_ENDED" "" svc.now
        (("from", state_text r.state) ∷ ("reason", "host_ended") ∷ []) in
    let valid =
      envelope-valid (svc.new_id 0) r.id "ROOM_ENDED" "" (length (s.events r.id)) svc.now _
        (ready.ids 0) (v.named r.id r here) refl ready.clock in
    let (t, is, written) =
      write_room-IsApplied s r.id r (ends "host_ended" svc.now) e here refl valid in
    record {
      store = t;
      mutation = record {
        room = record r {
          state = State.ended;
          ended_at = some svc.now;
          end_reason = "host_ended";
          current_seq = seq;
        };
        event = some e;
      };
      event = e;
      is = ap (λ o. end_found o svc s user) found ∙ rw (host, live, is) refl;
      row = ap t.rooms (sym (v.keyed room r found)) ∙ written.row;
      report = refl;
      published = refl;
      named = refl;
    }

abbrev pub IsNamed : State → Type 0
IsNamed State.lobby = Unit
IsNamed State.ready = Unit
IsNamed State.playing = Unit
IsNamed _ = ⊥

next-end : (st : State) → IsNamed st → next st Event.end ≡ Result.ok State.ended
unfolding next
next-end State.lobby h = refl
next-end State.ready h = refl
next-end State.playing h = refl
next-end State.ended h = absurd h
next-end (State.other t) h = absurd h

named-live : (st : State) → IsNamed st → is_ended st ≡ false
unfolding is_ended
named-live State.lobby h = refl
named-live State.ready h = refl
named-live State.playing h = refl
named-live State.ended h = absurd h
named-live (State.other t) h = absurd h

-- The host of a room in LOBBY, READY or PLAYING can end it in two ways, both of which succeed. End stores
-- the time and the reason and publishes ROOM_ENDED. A transition by the event END stores the state ENDED
-- alone, with the time and the reason as they were, and publishes ROOM_STATE_CHANGED.
pub end_two_ways :
    (svc : Service) (s : RoomStore) (r : Room) (room user : String)
    → s.rooms room ≡ some r
    → str_eq r.host_user_id user ≡ true
    → IsNamed r.state
    → IsKept s
    → IsReady svc s
    → Did
        (end svc s room user)
        room
        (record r {
          state = State.ended;
          ended_at = some svc.now;
          end_reason = "host_ended";
          current_seq = next_seq s r.id;
          updated_at = svc.now;
        })
        (record r {
          state = State.ended;
          ended_at = some svc.now;
          end_reason = "host_ended";
          current_seq = next_seq s r.id;
        })
        "ROOM_ENDED"
      × Did
          (transition svc s room user Event.end)
          room
          (record r { state = State.ended; current_seq = next_seq s room; updated_at = svc.now })
          (record r { state = State.ended; current_seq = next_seq s room })
          "ROOM_STATE_CHANGED"
unfolding first_start
end_two_ways svc s r room user found host named v ready = (
  end-Did svc s r room user found host (named-live r.state named) v ready,
  transition-Did svc s r room user Event.end State.ended found host (next-end r.state named) v
      ready,
)

-- A host's START of a READY room stores the time of its first start; the room that the operation reports
-- has the start time from before, which is none on a first start.
pub transition-started :
    (svc : Service) (s : RoomStore) (r : Room) (room user : String)
    → s.rooms room ≡ some r
    → str_eq r.host_user_id user ≡ true
    → r.state ≡ State.ready
    → IsKept s
    → IsReady svc s
    → Did
        (transition svc s room user Event.start)
        room
        (record r {
          state = State.playing;
          started_at = first_start State.playing r.started_at svc.now;
          current_seq = next_seq s room;
          updated_at = svc.now;
        })
        (record r { state = State.playing; current_seq = next_seq s room })
        "ROOM_STATE_CHANGED"
unfolding next
transition-started svc s r room user found host is v ready =
    transition-Did svc s r room user Event.start State.playing found host
      (ap (λ st. next st Event.start) is) v ready
