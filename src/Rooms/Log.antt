-- ===== src/Rooms/Log.antt =====
-- The rooms, members and event logs of the in-memory repository, as the realtime handler reads them
-- (server/internal/modules/rooms/roomstest/memstore.go), with no failure injected. A Go map is a
-- function of the room's id, with its keys where it is ranged over; `none` is a panic in appendLocked and an error elsewhere. Snapshots are
-- rendered by a parameter.
pub mod Reader
pub mod Append
pub mod Evolution
pub mod Applied
pub mod Effects
pub mod Exact
use vybe.Base.{
  ℕ, ◌+◌, ◌&&◌, ◌||◌, Bool, true, false, not, Option, none, some, List, [], ◌∷◌, ◌++◌,
  if◌then◌else◌, length, map,
}
use vybe.Base.Int.{ℤ, pos, ltb_ℤ, leb_ℤ, eqb_ℤ}
use vybe.Base.Text.{String, str_eq}
use vybe.Realtime.EventLog.{Envelope, Invalid, validate}
use vybe.Realtime.Resync.{Read, RoomReader}
use vybe.Base.Word.{◌-64◌}
use vybe.Rooms.Lifecycle.{State}
use vybe.Rooms.Succession.{Participant}

-- The join code and the title are their runes.
pub record Room : Type 0 where
  pub id : String
  pub content_id : String
  pub host_user_id : String
  pub join_code : List ℕ
  pub visibility : String
  pub state : State
  pub sync_mode : String
  pub title : List ℕ
  pub anchor_server_time : Option ℤ
  pub anchor_offset_ms : ℤ
  pub reanchor_count : ℤ
  pub max_participants : ℤ
  pub current_seq : ℤ
  pub created_at : ℤ
  pub updated_at : ℤ
  pub started_at : Option ℤ
  pub ended_at : Option ℤ
  pub end_reason : String

-- `room_ids` are the keys of `rooms`, in the order in which a range over the map visits them.
pub record RoomStore : Type 0 where
  pub room_ids : List String
  pub rooms : String → Option Room
  pub content : String → Bool
  pub participants : String → List Participant
  pub events : String → List Envelope

-- `m[k] = v`
unfoldable pub with_entry {ℓ} : {A : Type ℓ} → (String → A) → String → A → String → A
with_entry m k v j = if str_eq j k then v else m j

unfoldable pub numbered : Option Room → Envelope → Option Room
numbered none e = none
numbered (some r) e = some (record r { current_seq = e.seq; updated_at = e.ts })

unfoldable pub appended : Option Invalid → RoomStore → String → Envelope → Option RoomStore
appended (some i) s room e = none
appended none s room e = some (record s {
  events = with_entry s.events room (s.events room ++ e ∷ []);
  rooms = with_entry s.rooms room (numbered (s.rooms room) e);
})

-- `appendLocked` of an event that is not nil.
unfoldable pub append_locked : RoomStore → String → Envelope → Option RoomStore
append_locked s room e =
    if eqb_ℤ e.seq (pos (length (s.events room) + 1)) then appended (validate e) s room e else none

unfoldable pub next_seq : RoomStore → String → ℤ
next_seq s room = pos (length (s.events room) + 1)

unfoldable pub add_participant :
    RoomStore → String → String → Bool → ℤ → Envelope → Option RoomStore
add_participant s room user is_host at e =
    append_locked
      (record s {
        participants = with_entry s.participants room (
            s.participants room
            ++ record {
              user_id = user;
              joined_at = at;
              connected = true;
              is_host = is_host;
              disconnected_at = none;
            }
              ∷ []);
      })
      room e

abbrev pub departed : String → ℤ → Participant → Participant
departed user at p =
    if str_eq p.user_id user then record p { disconnected_at = some at; connected = false } else p

unfoldable pub remove_participant : RoomStore → String → String → ℤ → Envelope → Option RoomStore
remove_participant s room user at e =
    append_locked
      (record s {
        participants =
            with_entry s.participants room (map (departed user at) (s.participants room));
      })
      room e

-- A change of a room that exists, then its event; none is ErrRoomNotFound or a panic.
unfoldable pub change_room :
    Option Room → (Room → Room) → RoomStore → String → Envelope → Option RoomStore
change_room none f s room e = none
change_room (some r) f s room e =
    append_locked (record s { rooms = with_entry s.rooms room (some (f r)) }) room e

abbrev pub seated : String → Participant → Participant
seated host p = record p { is_host = str_eq p.user_id host }

unfoldable pub transfer_host : RoomStore → String → String → Envelope → Option RoomStore
transfer_host s room new_host e =
    change_room (s.rooms room) (λ r. record r { host_user_id = new_host })
      (record s {
        participants = with_entry s.participants room (map (seated new_host) (s.participants room));
      })
      room e

unfoldable pub first_start : State → Option ℤ → ℤ → Option ℤ
first_start State.playing none at = some at
first_start _ started at = started

unfoldable pub set_state : RoomStore → String → State → ℤ → Envelope → Option RoomStore
set_state s room to at e =
    change_room (s.rooms room)
      (λ r. record r { state = to; started_at = first_start to r.started_at at }) s room e

unfoldable pub end_room : RoomStore → String → String → ℤ → Envelope → Option RoomStore
end_room s room reason at e =
    change_room (s.rooms room)
      (λ r. record r { state = State.ended; ended_at = some at; end_reason = reason }) s room e

unfoldable pub is_departed : Option ℤ → Bool
is_departed none = false
is_departed (some t) = true

-- Some active participant is the user.
unfoldable pub has_active : String → List Participant → Bool
has_active user [] = false
has_active user (p ∷ l) =
    (not (is_departed p.disconnected_at) || p.connected) && str_eq p.user_id user
    || has_active user l

unfoldable pub is_ended : State → Bool
is_ended State.ended = true
is_ended _ = false

unfoldable pub membership_in : Option Room → List Participant → String → Option ℤ
membership_in none ps user = none
membership_in (some r) ps user =
    if is_ended r.state
    then none
    else if str_eq r.host_user_id user || has_active user ps
    then some r.current_seq
    else none

unfoldable pub since : ℤ → ℤ → List Envelope → List Envelope
since from to [] = []
since from to (e ∷ l) =
    let rest = since from to l in if ltb_ℤ from e.seq && leb_ℤ e.seq to then e ∷ rest else rest

unfoldable pub oldest_of : List Envelope → ℤ
oldest_of [] = pos 1
oldest_of (e ∷ l) = e.seq

-- `EventsSince`, which makes room for as many events as the numbers are apart: a negative capacity is a panic.
-- One too large for memory is left out.
unfoldable pub read_since : ℤ → ℤ → List Envelope → Read
read_since from to l =
    if ltb_ℤ (to -64 from) (pos 0) then Read.panicked else Read.read (since from to l)

-- The store as the RoomReader of a connection.
unfoldable pub room_reader : (String → Option (List ℕ)) → RoomStore → RoomReader
room_reader snapshot s = record {
  membership = λ room user. membership_in (s.rooms room) (s.participants room) user;
  events_since = λ room from to. read_since from to (s.events room);
  oldest_retained_seq = λ room. some (oldest_of (s.events room));
  snapshot = snapshot;
}
