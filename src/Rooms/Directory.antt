-- ===== src/Rooms/Directory.antt =====
-- The creation of rooms and their lookups in the in-memory repository
-- (server/internal/modules/rooms/roomstest/memstore.go).
use vybe.Base.{
  ℕ, ◌&&◌, ◌||◌, Bool, true, false, not, Option, none, some, List, [], ◌∷◌, if◌then◌else◌, ltb,
  length, take,
}
use vybe.Base.Int.{ℤ, ltb_ℤ, eqb_ℤ}
use vybe.Base.Text.{String, str_eq, str_ltb}
use vybe.Base.Bytes.{bytes_eq}
use vybe.Realtime.EventLog.{Envelope, contains_text}
use vybe.Rooms.Succession.{Participant}
use vybe.Rooms.Log.{Room, RoomStore, with_entry, append_locked, is_departed, is_ended}

-- A room that is live under the code.
unfoldable pub live_with : List ℕ → Option Room → Option Room
live_with code none = none
live_with code (some r) =
    if bytes_eq r.join_code code && not (is_ended r.state) then some r else none

abbrev or_else : Option Room → Option Room → Option Room
or_else (some r) rest = some r
or_else none rest = rest

unfoldable pub first_live : (String → Option Room) → List ℕ → List String → Option Room
first_live rooms code [] = none
first_live rooms code (id ∷ ids) = or_else (live_with code (rooms id)) (first_live rooms code ids)

unfoldable pub room_by_join_code : RoomStore → List ℕ → Option Room
room_by_join_code s code = first_live s.rooms code s.room_ids

abbrev is_some : Option Room → Bool
is_some none = false
is_some (some r) = true

unfoldable pub join_code_taken : RoomStore → List ℕ → Bool
join_code_taken s code = is_some (first_live s.rooms code s.room_ids)

-- The keys after a write of a key.
unfoldable pub with_key : String → List String → List String
with_key id ids = if contains_text id ids then ids else id ∷ ids

pub data CreateResult : Type 0 where
  code_conflict panicked : CreateResult
  created : RoomStore → CreateResult

abbrev pub created_or_panicked : Option RoomStore → CreateResult
created_or_panicked none = CreateResult.panicked
created_or_panicked (some s) = CreateResult.created s

abbrev pub host_of : Room → Participant
host_of r = record {
  user_id = r.host_user_id;
  joined_at = r.created_at;
  connected = true;
  is_host = true;
  disconnected_at = none;
}

abbrev pub with_room : RoomStore → Room → RoomStore
with_room s r = record s {
  room_ids = with_key r.id s.room_ids;
  rooms = with_entry s.rooms r.id (some r);
  participants = with_entry s.participants r.id (host_of r ∷ []);
}

unfoldable pub create_room : RoomStore → Room → Envelope → CreateResult
create_room s r e =
    if join_code_taken s r.join_code
    then CreateResult.code_conflict
    else created_or_panicked (append_locked (with_room s r) r.id e)

unfoldable pub is_active : Participant → Bool
is_active p = not (is_departed p.disconnected_at) || p.connected

unfoldable pub sits_before : Participant → Participant → Bool
sits_before p q =
    if eqb_ℤ p.joined_at q.joined_at
    then str_ltb p.user_id q.user_id
    else ltb_ℤ p.joined_at q.joined_at

-- Before the first that does not sit before it, so that equals keep their order.
unfoldable pub seat : Participant → List Participant → List Participant
seat p [] = p ∷ []
seat p (q ∷ l) = let rest = seat p l in if sits_before q p then q ∷ rest else p ∷ q ∷ l

unfoldable pub active_in_order : List Participant → List Participant
active_in_order [] = []
active_in_order (p ∷ l) = let rest = active_in_order l in if is_active p then seat p rest else rest

unfoldable pub participants_of : RoomStore → String → List Participant
participants_of s room = active_in_order (s.participants room)

-- RoomsForUser.
unfoldable pub has_user : String → List Participant → Bool
has_user user [] = false
has_user user (p ∷ l) = str_eq p.user_id user || has_user user l

abbrev pub takes_part : RoomStore → String → String → Room → Bool
takes_part s user id r = str_eq r.host_user_id user || has_user user (s.participants id)

unfoldable pub newer : Room → Room → Bool
newer a b =
    if eqb_ℤ a.created_at b.created_at then str_ltb b.id a.id else ltb_ℤ b.created_at a.created_at

unfoldable pub place_room : Room → List Room → List Room
place_room r [] = r ∷ []
place_room r (q ∷ l) = let rest = place_room r l in if newer q r then q ∷ rest else r ∷ q ∷ l

abbrev pub add_if_member : RoomStore → String → String → Option Room → List Room → List Room
add_if_member s user id none l = l
add_if_member s user id (some r) l = if takes_part s user id r then place_room r l else l

unfoldable pub rooms_with : RoomStore → String → List String → List Room
rooms_with s user [] = []
rooms_with s user (id ∷ ids) = add_if_member s user id (s.rooms id) (rooms_with s user ids)

abbrev pub past : ℤ → String → Room → Bool
past before before_id r =
    ltb_ℤ r.created_at before || (eqb_ℤ r.created_at before && str_ltb r.id before_id)

unfoldable pub rooms_past : ℤ → String → List Room → List Room
rooms_past before before_id [] = []
rooms_past before before_id (r ∷ l) =
    let rest = rooms_past before before_id l in if past before before_id r then r ∷ rest else rest

abbrev pub from_cursor : Option ℤ → String → List Room → List Room
from_cursor none before_id l = l
from_cursor (some before) before_id l = rooms_past before before_id l

unfoldable pub limited : ℕ → List Room → List Room
limited limit l = if ltb 0 limit && ltb limit (length l) then take limit l else l

-- `before` none is nil; a limit of 0 or below is no limit.
unfoldable pub rooms_for_user : RoomStore → String → Option ℤ → String → ℕ → List Room
rooms_for_user s user before before_id limit =
    limited limit (from_cursor before before_id (rooms_with s user s.room_ids))
