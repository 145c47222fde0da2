-- ===== src/Tests/Handlers.antt =====
-- A guest who joins over HTTP (server/internal/modules/rooms/handler.go).
use vybe.Base.{ℕ, ◌≡◌, refl, true, false, none, some, List, [], ◌∷◌, map, Bool-cases, inl, inr}
use vybe.Base.Maps.{entry}
use vybe.Base.Int.{pos}
use vybe.Base.Text.{str_eq}
use vybe.Realtime.EventLog.{Envelope, contains_text}
use vybe.Realtime.Hub.{Hub, Members, new_conn, targets, members_of}
use vybe.Realtime.Hub.Delivery.{IsDistinct, audience, has_handle}
use vybe.Rooms.Lifecycle.{State}
use vybe.Rooms.Log.{RoomStore}
use vybe.Rooms.Directory.{rooms_for_user, rooms_with, has_user, newer, place_room, limited}
use vybe.Rooms.Listing.{
  parse_page_params, first_banned, allowed_params, limited_params, page_limit, with_cursor,
  new_page,
}
use vybe.Rooms.Handler.{
  Handler, World, Reply, Call, handle, as_actor, handle_for, handle_list, listed, found_after,
}
use vybe.Rooms.Handler.Atomic.{IsAtomic, handle-IsAtomic}
use vybe.Rooms.Handler.Secrecy.{KeepsCode, handle-KeepsCode}
use vybe.Rooms.Handler.Published.{IsInformed, handle-IsInformed}
use vybe.Tests.Services.{one_room, one_room-IsKept, later, later-IsReady}

abbrev host_members : Members
host_members = ("phone", record { user_id = "h"; conn_id = "phone"; handle = 0 }) ∷ []

abbrev listening : Hub
listening = record { rooms = ("r", host_members) ∷ []; conns = λ k. new_conn }

abbrev world : World
world = record { store = one_room; hub = listening }

abbrev handler : Handler
handler = record { svc = later; pick = λ k. true; later = pos 7; quote = λ t. [] }

abbrev join_call : Call
join_call = Call.to_join (inr (97 ∷ 97 ∷ 97 ∷ 45 ∷ 97 ∷ 97 ∷ 97 ∷ []))

listening-IsDistinct : (e : Envelope) → IsDistinct (audience listening e [])
unfolding targets members_of entry IsDistinct has_handle
listening-IsDistinct e = elim (Bool-cases (str_eq e.room "r")) [
  | inl own ↦ rw own (refl, tt)
  | inr other ↦ rw other tt
]

handle-IsAtomic_example : IsAtomic world (handle handler world (some "g") join_call)
handle-IsAtomic_example =
    handle-IsAtomic handler world (some "g") join_call one_room-IsKept later-IsReady

handle-KeepsCode_example :
    KeepsCode
      (handle handler world (some "g") join_call).0.store
      (some "g")
      (handle handler world (some "g") join_call).1
handle-KeepsCode_example =
    handle-KeepsCode handler world (some "g") join_call one_room-IsKept later-IsReady

handle-IsInformed_example : IsInformed world (handle handler world (some "g") join_call).0 0
handle-IsInformed_example =
    handle-IsInformed handler world (some "g") join_call 0 listening-IsDistinct

-- The room of a guest who has left.
abbrev left_store : RoomStore
left_store = record {
  room_ids = "r" ∷ [];
  rooms = λ k. some (record {
    id = "r";
    content_id = "film";
    host_user_id = "h";
    join_code = 75 ∷ [];
    visibility = "PRIVATE";
    state = State.lobby;
    sync_mode = "REMOTE";
    title = [];
    anchor_server_time = none;
    anchor_offset_ms = pos 0;
    reanchor_count = pos 0;
    max_participants = pos 4;
    current_seq = pos 3;
    created_at = pos 1;
    updated_at = pos 3;
    started_at = none;
    ended_at = none;
    end_reason = "";
  });
  content = λ k. true;
  participants = λ k.
      record {
        user_id = "g";
        joined_at = pos 2;
        connected = false;
        is_host = false;
        disconnected_at = some (pos 3);
      }
      ∷ [];
  events = λ k. [];
}

codes : Reply → List (List ℕ)
codes (Reply.refusal p) = []
codes (Reply.shows status r) = r.join_code ∷ []
codes (Reply.lists page) = map (λ r. r.join_code) page.items

-- The list still shows the guest the code.
list_shows_code :
    codes
      (handle handler
        (record { store = left_store; hub = listening })
        (some "g")
        (Call.to_list (record { names = []; limit = ""; cursor = none }))).1
    ≡ (75 ∷ []) ∷ []
unfolding codes handle as_actor handle_for handle_list listed parse_page_params first_banned
    contains_text allowed_params limited_params page_limit with_cursor found_after rooms_for_user
    rooms_with has_user newer place_room limited new_page
list_shows_code = refl
