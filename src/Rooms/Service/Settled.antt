-- ===== src/Rooms/Service/Settled.antt =====
-- What each operation of the rooms service does to a well-formed store
-- (server/internal/modules/rooms/service.go).
use vybe.Base.{
  ◌≡◌, refl, ap, ◌∙◌, Bool, true, false, Option, none, some, List, [], ◌∷◌, length, arith,
  Bool-cases, inl, inr,
}
use vybe.Base.Text.{String, str_eq}
use vybe.Rooms.Lifecycle.{State, Event, Result, next}
use vybe.Rooms.Succession.{Participant, successor_for}
use vybe.Rooms.Log.{Room, RoomStore, next_seq, is_ended, remove_participant}
use vybe.Rooms.Log.Append.{IsSound, leaves, moves, write_room, write_room-IsSound}
use vybe.Rooms.Log.Evolution.{Evolves, Evolves-refl, write_room-Evolves}
use vybe.Rooms.Log.Applied.{row_after, write_room-IsApplied}
use vybe.Rooms.Directory.{participants_of}
use vybe.Rooms.Operation.{Service, ServiceError, Outcome, envelope}
use vybe.Rooms.Service.{
  contains, without, left, departure, leave_found, leave, end_found, end, move_to, transition_found,
  transition,
}
use vybe.Rooms.Service.Requests.{IsKept, IsReady, envelope-valid}
use vybe.Rooms.Service.Writes.{
  Stands, Succeeds, Succeeds-later, wrote-Succeeds, end_room_as-Succeeds, hand_over-Succeeds,
}

abbrev pub is_write_failed : ServiceError → Bool
is_write_failed ServiceError.write_failed = true
is_write_failed _ = false

-- A success, or an error that leaves the store and is not a failed write.
abbrev pub Settles : RoomStore → Outcome → Type 0
Settles s (Outcome.done t m) = IsSound t × Evolves s t × Stands t m
Settles s (Outcome.failed t e) = (t ≡ s) × (is_write_failed e ≡ false)

pub succeeded : (s : RoomStore) (o : Outcome) → Succeeds s o → Settles s o
succeeded s (Outcome.done t m) h = h
succeeded s (Outcome.failed t e) h = absurd h

end_found-Settles :
    (svc : Service) (s : RoomStore) (room user : String) (o : Option Room)
    → s.rooms room ≡ o
    → IsKept s
    → IsReady svc s
    → Settles s (end_found o svc s user)
unfolding end_found
end_found-Settles svc s room user none found v ready = (refl, refl)
end_found-Settles svc s room user (some r) found v ready =
    let here : s.rooms r.id ≡ some r = ap s.rooms (v.keyed room r found) ∙ found in
    elim (Bool-cases (str_eq r.host_user_id user)) [
      | inr other ↦ rw other (refl, refl)
      | inl host ↦ elim (Bool-cases (is_ended r.state)) [
        | inl over ↦ rw (host, over) (v.sound, Evolves-refl s, (r, here, ground arith))
        | inr live ↦
            rw (host, live)
              (succeeded s _ (
                end_room_as-Succeeds svc (svc.new_id 0) s r r "host_ended" here refl refl refl
                  (ready.ids 0) (v.named r.id r here) ready.clock v.sound))
      ]
    ]

pub end-Settles :
    (svc : Service) (s : RoomStore) (room user : String)
    → IsKept s
    → IsReady svc s
    → Settles s (end svc s room user)
unfolding end
end-Settles svc s room user v ready = end_found-Settles svc s room user (s.rooms room) refl v ready

next_lively :
    (from to : State) (ev : Event)
    → next from ev ≡ Result.ok to
    → is_ended from ≡ true
    → is_ended to ≡ true
unfolding next is_ended
next_lively State.lobby to ev h k = absurd cc
next_lively State.ready to ev h k = absurd cc
next_lively State.playing to ev h k = absurd cc
next_lively (State.other t) to ev h k = absurd cc
next_lively State.ended to ev h k = absurd cc

pub move_to-Succeeds :
    (svc : Service) (s : RoomStore) (r : Room) (room user : String) (ev : Event) (to : State)
    → next r.state ev ≡ Result.ok to
    → s.rooms room ≡ some r
    → IsKept s
    → IsReady svc s
    → Succeeds s (move_to (Result.ok to) svc s r room user ev)
unfolding move_to write_room next_seq envelope
move_to-Succeeds svc s r room user ev to next_is found v ready =
    wrote-Succeeds s room r (moves to svc.now) _ _ found refl
      (envelope-valid (svc.new_id 0) room "ROOM_STATE_CHANGED" user (length (s.events room)) svc.now
        _ (ready.ids 0) (v.named room r found) refl ready.clock)
      v.sound (next_lively r.state to ev next_is) (v.keyed room r found)
      (refl, refl, refl, refl, refl, refl, refl)

move_to-Settles :
    (svc : Service) (s : RoomStore) (r : Room) (room user : String) (ev : Event) (n : Result State)
    → next r.state ev ≡ n
    → s.rooms room ≡ some r
    → IsKept s
    → IsReady svc s
    → Settles s (move_to n svc s r room user ev)
unfolding move_to
move_to-Settles svc s r room user ev (Result.illegal i) next_is found v ready = (refl, refl)
move_to-Settles svc s r room user ev (Result.ok to) next_is found v ready =
    succeeded s _ (move_to-Succeeds svc s r room user ev to next_is found v ready)

transition_found-Settles :
    (svc : Service) (s : RoomStore) (room user : String) (ev : Event) (o : Option Room)
    → s.rooms room ≡ o
    → IsKept s
    → IsReady svc s
    → Settles s (transition_found o svc s room user ev)
unfolding transition_found
transition_found-Settles svc s room user ev none found v ready = (refl, refl)
transition_found-Settles svc s room user ev (some r) found v ready =
    elim (Bool-cases (str_eq r.host_user_id user)) [
      | inr other ↦ rw other (refl, refl)
      | inl host ↦
          rw host (move_to-Settles svc s r room user ev (next r.state ev) refl found v ready)
    ]

pub transition-Settles :
    (svc : Service) (s : RoomStore) (room user : String) (ev : Event)
    → IsKept s
    → IsReady svc s
    → Settles s (transition svc s room user ev)
unfolding transition
transition-Settles svc s room user ev v ready =
    transition_found-Settles svc s room user ev (s.rooms room) refl v ready

-- The host or another member leaves, once the departure is written.
left-Settles :
    (svc : Service) (s : RoomStore) (r : Room) (ps : List Participant) (room user : String)
    → s.rooms room ≡ some r
    → IsKept s
    → IsReady svc s
    → Settles s (
        left
          (remove_participant s room user svc.now (departure svc s room user))
          svc
          s
          r
          ps
          room
          user
          (departure svc s room user))
unfolding left write_room next_seq envelope
left-Settles svc s r ps room user found v ready =
    let w = leaves user svc.now in
    let e = departure svc s room user in
    let valid =
      envelope-valid (svc.new_id 0) room "PARTICIPANT_LEFT" user (length (s.events room)) svc.now
        (("userId", user) ∷ []) (ready.ids 0) (v.named room r found) refl ready.clock in
    let (t, is, written) = write_room-IsApplied s room r w e found refl valid in
    let sound = write_room-IsSound s t room w e is v.sound in
    let later = write_room-Evolves s t room r w e is found tt in
    let id = v.keyed room r found in
    elim (Bool-cases (str_eq user r.host_user_id)) [
      | inl host ↦
          rw (is, host)
            (succeeded s _ (
              Succeeds-later s t _ later (
                hand_over-Succeeds svc t (row_after w e r) (record r { current_seq = e.seq }) room
                  user (successor_for (without ps user) svc.now) written.row id refl refl refl refl
                  refl refl (ready.ids 1) (v.named room r found) ready.clock sound)))
      | inr other ↦
          rw (is, other)
            (
              sound,
              later,
              (
                row_after w e r,
                ap t.rooms id ∙ written.row,
                (refl, refl, refl, refl, refl, refl, refl),
              ),
            )
    ]

leave_found-Settles :
    (svc : Service) (s : RoomStore) (room user : String) (o : Option Room)
    → s.rooms room ≡ o
    → IsKept s
    → IsReady svc s
    → Settles s (leave_found o svc s room user)
unfolding leave_found
leave_found-Settles svc s room user none found v ready = (refl, refl)
leave_found-Settles svc s room user (some r) found v ready =
    elim (Bool-cases (contains (participants_of s room) user)) [
      | inl in_it ↦ rw in_it (left-Settles svc s r (participants_of s room) room user found v ready)
      | inr out ↦ rw out (refl, refl)
    ]

pub leave-Settles :
    (svc : Service) (s : RoomStore) (room user : String)
    → IsKept s
    → IsReady svc s
    → Settles s (leave svc s room user)
unfolding leave
leave-Settles svc s room user v ready =
    leave_found-Settles svc s room user (s.rooms room) refl v ready
