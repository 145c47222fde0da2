-- ===== src/Rooms/Creation.antt =====
-- The creation of a room, with its join code (server/internal/modules/rooms/service.go). Titles, codes and
-- modes that a caller gives are their runes.
use vybe.Base.{
  ℕ, ◌&&◌, Option, none, some, List, [], ◌∷◌, if◌then◌else◌, map, ltb, zero, suc, length, ◌||◌, leb,
  ◌+◌,
}
use vybe.Base.Int.{pos}
use vybe.Base.Text.{String}
use vybe.Base.Bytes.{bytes_eq}
use vybe.Base.Json.{runes_of}
use vybe.Base.Runes.{trim_space}
use vybe.Realtime.EventLog.{Envelope, Invalid, validate}
use vybe.Rooms.Lifecycle.{State, max_participants}
use vybe.Rooms.JoinCode.{to_upper}
use vybe.Rooms.Log.{Room, RoomStore}
use vybe.Rooms.Directory.{CreateResult, create_room, join_code_taken}
use vybe.Rooms.Operation.{envelope, Service, Mutation, ServiceError, Outcome}

abbrev pub max_title_length : ℕ
max_title_length = 120

abbrev pub join_code_attempts : ℕ
join_code_attempts = 5

-- `none` is ErrInvalidSyncMode.
unfoldable pub normalise_sync_mode : (ℕ → ℕ) → List ℕ → Option String
normalise_sync_mode upper_rune raw =
    let mode = map (to_upper upper_rune) (trim_space raw) in
    if bytes_eq mode [] || bytes_eq mode (runes_of "COMPANION")
    then some "COMPANION"
    else if bytes_eq mode (runes_of "MANUAL")
    then some "MANUAL"
    else none

-- `strings.EqualFold` with a text of the letters b, c, i, l, p and u, which fold to ASCII only.
unfoldable pub fold : ℕ → ℕ
fold r = if leb b'A' r && leb r b'Z' then r + 32 else r

unfoldable pub visibility_of : List ℕ → String
visibility_of raw =
    if bytes_eq (map fold (trim_space raw)) (runes_of "public") then "public" else "private"

pub data CodeResult : Type 0 where
  drawn : List ℕ → CodeResult
  code_failed : ServiceError → CodeResult

-- The loop of `allocateJoinCode` with a number of attempts left.
unfoldable pub draw_code : ℕ → List (Option (List ℕ)) → RoomStore → CodeResult
draw_code zero draws s = CodeResult.code_failed ServiceError.join_code_conflict
draw_code (suc n) [] s = CodeResult.code_failed ServiceError.no_code
draw_code (suc n) (none ∷ draws) s = CodeResult.code_failed ServiceError.no_code
draw_code (suc n) (some c ∷ draws) s =
    let rest = draw_code n draws s in if join_code_taken s c then rest else CodeResult.drawn c

unfoldable pub allocate_join_code : Service → RoomStore → CodeResult
allocate_join_code svc s = draw_code join_code_attempts svc.new_code s

pub record CreateInput : Type 0 where
  pub host_user_id : String
  pub content_id : String
  pub title : List ℕ
  pub visibility : List ℕ
  pub sync_mode : List ℕ

unfoldable pub opened_room : Service → CreateInput → String → String → List ℕ → Room
opened_room svc input mode tier code = record {
  id = svc.new_id 0;
  content_id = input.content_id;
  host_user_id = input.host_user_id;
  join_code = code;
  visibility = visibility_of input.visibility;
  state = State.lobby;
  sync_mode = mode;
  title = trim_space input.title;
  anchor_server_time = none;
  anchor_offset_ms = pos 0;
  reanchor_count = pos 0;
  max_participants = max_participants tier;
  current_seq = pos 1;
  created_at = svc.now;
  updated_at = svc.now;
  started_at = none;
  ended_at = none;
  end_reason = "";
}

abbrev pub opening : Service → CreateInput → Envelope
opening svc input =
    envelope (svc.new_id 1) (svc.new_id 0) (pos 1) "ROOM_STATE_CHANGED" input.host_user_id svc.now
      (("from", "") ∷ ("roomId", svc.new_id 0) ∷ ("to", "LOBBY") ∷ [])

abbrev pub created_as : RoomStore → Mutation → CreateResult → Outcome
created_as s m CreateResult.code_conflict = Outcome.failed s ServiceError.join_code_conflict
created_as s m CreateResult.panicked = Outcome.failed s ServiceError.write_failed
created_as s m (CreateResult.created t) = Outcome.done t m

unfoldable pub create_checked : Option Invalid → RoomStore → Room → Envelope → Outcome
create_checked (some i) s r e = Outcome.failed s (ServiceError.bad_event i)
create_checked none s r e = created_as s (record { room = r; event = some e }) (create_room s r e)

unfoldable pub create_coded :
    CodeResult → Service → RoomStore → CreateInput → String → String → Outcome
create_coded (CodeResult.code_failed e) svc s input mode tier = Outcome.failed s e
create_coded (CodeResult.drawn c) svc s input mode tier =
    create_checked (validate (opening svc input)) s (opened_room svc input mode tier c)
      (opening svc input)

unfoldable pub create_for : Option String → Service → RoomStore → CreateInput → String → Outcome
create_for none svc s input mode = Outcome.failed s ServiceError.no_entitlement
create_for (some tier) svc s input mode =
    create_coded (allocate_join_code svc s) svc s input mode tier

unfoldable pub create_in_mode : Option String → Service → RoomStore → CreateInput → Outcome
create_in_mode none svc s input = Outcome.failed s ServiceError.invalid_sync_mode
create_in_mode (some mode) svc s input =
    if s.content input.content_id
    then create_for (svc.entitlement_tier input.host_user_id) svc s input mode
    else Outcome.failed s ServiceError.content_not_found

unfoldable pub create : Service → RoomStore → CreateInput → Outcome
create svc s input =
    if ltb max_title_length (length (trim_space input.title))
    then Outcome.failed s ServiceError.invalid_title
    else create_in_mode (normalise_sync_mode svc.upper_rune input.sync_mode) svc s input
