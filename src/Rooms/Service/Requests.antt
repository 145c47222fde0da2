-- ===== src/Rooms/Service/Requests.antt =====
-- The operations of the rooms service as one step, and what the step keeps
-- (server/internal/modules/rooms/service.go).
use vybe.Base.{◌+◌, ◌≡◌, false, none, some, List, [], ◌∷◌, arith, ℕ, Occurs}
use vybe.Base.Int.{ℤ, pos}
use vybe.Base.Json.{json_object}
use vybe.Base.Text.{String, is_empty}
use vybe.Base.Word.{is_zero_time}
use vybe.Realtime.EventLog.{validate, contains_text}
use vybe.Rooms.Lifecycle.{Event}
use vybe.Rooms.Log.{Room, RoomStore, is_ended}
use vybe.Rooms.Log.Append.{IsSound}
use vybe.Rooms.Operation.{Service, Outcome, envelope}
use vybe.Rooms.Creation.{CreateInput, create}
use vybe.Rooms.Service.{join_by_code, leave, end, transition}

-- A call of the service that changes the store.
pub data Request : Type 0 where
  creates : CreateInput → Request
  joins_by : (raw_code : List ℕ) (user : String) → Request
  leaves_room : (room user : String) → Request
  ends_room : (room user : String) → Request
  transitions : (room user : String) (event : Event) → Request

unfoldable pub serve : Service → RoomStore → Request → Outcome
serve svc s (creates input) = create svc s input
serve svc s (joins_by raw_code user) = join_by_code svc s raw_code user
serve svc s (leaves_room room user) = leave svc s room user
serve svc s (ends_room room user) = end svc s room user
serve svc s (transitions room user event) = transition svc s room user event

abbrev pub store_after : Outcome → RoomStore
store_after (Outcome.done t m) = t
store_after (Outcome.failed t e) = t

-- Two ids with a live room under the same code are one.
abbrev pub HasUniqueCodes : RoomStore → Type 0
HasUniqueCodes s =
    (i j : String) (q r : Room)
    → s.rooms i ≡ some q
    → s.rooms j ≡ some r
    → is_ended q.state ≡ false
    → is_ended r.state ≡ false
    → q.join_code ≡ r.join_code
    → i ≡ j

-- The keys of a map stand once each.
unfoldable pub HasDistinctKeys : List String → Type 0
HasDistinctKeys [] = Unit
HasDistinctKeys (id ∷ ids) = (contains_text id ids ≡ false) × HasDistinctKeys ids

-- The well-formed stores: the keys stand once each, the logs are numbered, rooms stand under their own id, which is not empty and
-- is among the keys, an id with no room has no events, and live rooms differ in their codes.
pub record IsKept (s : RoomStore) : Type 0 where
  pub distinct_keys : HasDistinctKeys s.room_ids
  pub sound : IsSound s
  pub keyed : (j : String) (r : Room) → s.rooms j ≡ some r → r.id ≡ j
  pub named : (j : String) (r : Room) → s.rooms j ≡ some r → is_empty j ≡ false
  pub listed : (j : String) (r : Room) → s.rooms j ≡ some r → Occurs j s.room_ids
  pub unlogged : (j : String) → s.rooms j ≡ none → s.events j ≡ []
  pub unique_codes : HasUniqueCodes s

-- The clock is past the zero time, and the ids drawn are not empty; the first is no room's.
pub record IsReady (svc : Service) (s : RoomStore) : Type 0 where
  pub clock : is_zero_time svc.now ≡ false
  pub ids : (n : ℕ) → is_empty (svc.new_id n) ≡ false
  pub fresh : s.rooms (svc.new_id 0) ≡ none

-- An envelope of the service is valid: what `Validate` checks is there.
pub envelope-valid :
    (id room kind actor : String) (n : ℕ) (ts : ℤ) (payload : List (String × String))
    → is_empty id ≡ false
    → is_empty room ≡ false
    → is_empty kind ≡ false
    → is_zero_time ts ≡ false
    → validate (envelope id room (pos (n + 1)) kind actor ts payload) ≡ none
unfolding envelope validate json_object
envelope-valid id room kind actor n ts [] h k l m = ground arith
envelope-valid id room kind actor n ts (p ∷ q) h k l m = ground arith
