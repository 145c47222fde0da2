-- ===== src/Rooms/Service/Permissions.antt =====
-- Who may do what to a room, and who sees it
-- (server/internal/modules/rooms/service.go, server/internal/modules/rooms/roomstest/memstore.go).
use vybe.Base.{
  ◌≡◌, refl, sym, ap, ◌∙◌, Bool, true, false, ◌&&◌, Option, none, some, List, arith, Bool-cases,
  inl, inr,
}
use vybe.Base.Int.{ℤ}
use vybe.Base.Text.{String, str_eq}
use vybe.Rooms.Lifecycle.{State, Event, Result, next, can_transition}
use vybe.Rooms.Succession.{Participant}
use vybe.Rooms.Log.{Room, RoomStore, is_ended, membership_in}
use vybe.Rooms.Directory.{participants_of}
use vybe.Rooms.Operation.{Service, Outcome}
use vybe.Rooms.Service.{
  contains, leave_found, leave, end_found, end, move_to, transition_found, transition, get_found,
  get,
}
use vybe.Rooms.Service.Requests.{
  IsKept, IsReady, Request, leaves_room, ends_room, transitions, serve,
}
use vybe.Rooms.Service.Writes.{Succeeds, end_room_as-Succeeds}
use vybe.Rooms.Service.Settled.{move_to-Succeeds}
use vybe.Rooms.Service.Members.{contains-participants_of}
use vybe.Rooms.Service.Hosting.{leave-IsLeft}

abbrev pub is_done : Outcome → Bool
is_done (Outcome.done t m) = true
is_done (Outcome.failed t e) = false

Succeeds-done : (s : RoomStore) (o : Outcome) → Succeeds s o → is_done o ≡ true
Succeeds-done s (Outcome.done t m) h = refl
Succeeds-done s (Outcome.failed t e) h = absurd h

end-done :
    (svc : Service) (s : RoomStore) (r : Room) (room user : String)
    → s.rooms room ≡ some r
    → IsKept s
    → IsReady svc s
    → is_done (end svc s room user) ≡ str_eq r.host_user_id user
unfolding end end_found
end-done svc s r room user found v ready =
    let here : s.rooms r.id ≡ some r = ap s.rooms (v.keyed room r found) ∙ found in
    elim (Bool-cases (str_eq r.host_user_id user)) [
      | inr other ↦ rw (found, other) refl
      | inl host ↦ elim (Bool-cases (is_ended r.state)) [
        | inl over ↦ rw (found, host, over) refl
        | inr live ↦
            rw (found, host, live)
              (Succeeds-done s _ (
                end_room_as-Succeeds svc (svc.new_id 0) s r r "host_ended" here refl refl refl
                  (ready.ids 0) (v.named r.id r here) ready.clock v.sound))
      ]
    ]

move_to-done :
    (svc : Service) (s : RoomStore) (r : Room) (room user : String) (ev : Event) (n : Result State)
    → next r.state ev ≡ n
    → s.rooms room ≡ some r
    → IsKept s
    → IsReady svc s
    → is_done (move_to n svc s r room user ev) ≡ can_transition r.state ev
unfolding move_to can_transition
move_to-done svc s r room user ev (Result.illegal i) is found v ready = rw (is, can_transition) refl
move_to-done svc s r room user ev (Result.ok to) is found v ready =
    Succeeds-done s _ (move_to-Succeeds svc s r room user ev to is found v ready)
    ∙ rw (is, can_transition) refl

transition-done :
    (svc : Service) (s : RoomStore) (r : Room) (room user : String) (ev : Event)
    → s.rooms room ≡ some r
    → IsKept s
    → IsReady svc s
    → is_done (transition svc s room user ev)
      ≡ (str_eq r.host_user_id user && can_transition r.state ev)
unfolding transition transition_found
transition-done svc s r room user ev found v ready =
    elim (Bool-cases (str_eq r.host_user_id user)) [
      | inr other ↦ rw (found, other) refl
      | inl host ↦
          rw (found, host) (move_to-done svc s r room user ev (next r.state ev) refl found v ready)
    ]

leave-done :
    (svc : Service) (s : RoomStore) (r : Room) (room user : String)
    → s.rooms room ≡ some r
    → IsKept s
    → IsReady svc s
    → is_done (leave svc s room user) ≡ contains (participants_of s room) user
unfolding leave leave_found
leave-done svc s r room user found v ready =
    elim (Bool-cases (contains (participants_of s room) user)) [
      | inl member ↦
          let (t, m, done, well) = leave-IsLeft svc s r room user found member v ready in
          ap is_done done ∙ sym member
      | inr stranger ↦ rw (found, stranger) refl
    ]

-- Whom the service lets do what to a room that is there.
abbrev pub may : Service → RoomStore → Room → String → Request → Bool
may svc s r room (leaves_room at user) = contains (participants_of s room) user
may svc s r room (ends_room at user) = str_eq r.host_user_id user
may svc s r room (transitions at user event) =
    str_eq r.host_user_id user && can_transition r.state event
may svc s r room _ = false

-- The room that a request names.
abbrev pub Names : Request → String → Type 0
Names (leaves_room at user) room = at ≡ room
Names (ends_room at user) room = at ≡ room
Names (transitions at user event) room = at ≡ room
Names _ room = ⊥

-- On a room of a well-formed store, leaving succeeds exactly for the active members, ending exactly for the
-- host, and a transition exactly for the host when the state machine allows it.
pub serve-may :
    (svc : Service) (s : RoomStore) (r : Room) (room : String) (request : Request)
    → Names request room
    → s.rooms room ≡ some r
    → IsKept s
    → IsReady svc s
    → is_done (serve svc s request) ≡ may svc s r room request
unfolding serve
serve-may svc s r room (leaves_room at user) is found v ready =
    rw is (leave-done svc s r room user found v ready)
serve-may svc s r room (ends_room at user) is found v ready =
    rw is (end-done svc s r room user found v ready)
serve-may svc s r room (transitions at user event) is found v ready =
    rw is (transition-done svc s r room user event found v ready)
serve-may svc s r room (Request.creates input) is found v ready = absurd is
serve-may svc s r room (Request.joins_by raw_code user) is found v ready = absurd is

abbrev pub is_shown : Option (Room × List Participant) → Bool
is_shown none = false
is_shown (some p) = true

abbrev pub is_member : Option ℤ → Bool
is_member none = false
is_member (some n) = true

-- A live room is shown by Get to exactly those whom the realtime handler takes for members of it.
pub get-membership_in :
    (s : RoomStore) (r : Room) (room viewer : String)
    → s.rooms room ≡ some r
    → is_ended r.state ≡ false
    → is_shown (get s room viewer)
      ≡ is_member (membership_in (s.rooms room) (s.participants room) viewer)
unfolding get get_found membership_in
get-membership_in s r room viewer found live =
    let same = contains-participants_of s room viewer in rw found (rw (live, same) ground arith)
