-- ===== src/Rooms/Service/Logged.antt =====
-- What the rooms service returns to be published, against the log
-- (server/internal/modules/rooms/service.go).
use vybe.Base.{
  ◌≡◌, refl, sym, ap, ◌∙◌, Option, none, some, List, [], ◌∷◌, ◌++◌, Bool-cases, inl, inr, ℕ,
}
use vybe.Base.Text.{String, str_eq}
use vybe.Realtime.EventLog.{Envelope, Invalid}
use vybe.Rooms.Lifecycle.{JoinError, Event, Result, State}
use vybe.Rooms.Succession.{Participant}
use vybe.Rooms.Log.{
  Room, RoomStore, append_locked, change_room, add_participant, remove_participant, transfer_host,
  set_state, end_room, is_ended,
}
use vybe.Rooms.Log.Append.{append_locked-accepted}
use vybe.Rooms.Log.Applied.{entry-same}
use vybe.Rooms.Directory.{create_room, join_code_taken, participants_of, created_or_panicked}
use vybe.Rooms.Operation.{Service, Outcome, wrote, envelope}
use vybe.Rooms.Creation.{CreateInput, create_checked, create, created_as, opened_room}
use vybe.Rooms.Service.{
  admit, admit_under, join_found, join_parsed, join_by_code, end_room_as, hand_over, left,
  leave_found, leave, end_found, end, move_to, transition, contains,
}
use vybe.Rooms.Service.Cases.{create_cases, transition_cases}

-- The event is the last of the log of its room.
abbrev pub IsLast : RoomStore → Option Envelope → Type 0
IsLast t none = Unit
IsLast t (some e) = (before : List Envelope) × (t.events e.room ≡ before ++ e ∷ [])

abbrev pub IsLogged : Outcome → Type 0
IsLogged (Outcome.failed t e) = Unit
IsLogged (Outcome.done t m) = IsLast t m.event

appended-IsLast :
    (s t : RoomStore) (room : String) (e : Envelope)
    → append_locked s room e ≡ some t
    → e.room ≡ room
    → IsLast t (some e)
appended-IsLast s t room e h at =
    let a = append_locked-accepted s t room e h in
    (
      s.events room,
      ap t.events at
          ∙ ap (λ u. u.events room) (sym a.1)
          ∙ entry-same s.events room (s.events room ++ e ∷ []),
    )

changed-IsLast :
    (s t : RoomStore) (room : String) (e : Envelope) (f : Room → Room) (o : Option Room)
    → change_room o f s room e ≡ some t
    → e.room ≡ room
    → IsLast t (some e)
unfolding change_room
changed-IsLast s t room e f none h at = absurd cc
changed-IsLast s t room e f (some r) h at = appended-IsLast _ t room e h at

wrote-IsLogged :
    (s : RoomStore) (r : Room) (e : Envelope) (o : Option RoomStore)
    → ((t : RoomStore) → o ≡ some t → IsLast t (some e))
    → IsLogged (wrote s (record { room = r; event = some e }) o)
unfolding wrote
wrote-IsLogged s r e none h = tt
wrote-IsLogged s r e (some t) h = h t refl

admit-IsLogged :
    (svc : Service) (s : RoomStore) (r : Room) (user : String) (o : Option JoinError)
    → IsLogged (admit o svc s r user)
unfolding admit add_participant envelope
admit-IsLogged svc s r user (some e) = tt
admit-IsLogged svc s r user none = wrote-IsLogged s _ _ _ (λ t h. appended-IsLast _ t r.id _ h refl)

admit_under-IsLogged :
    (svc : Service) (s : RoomStore) (r : Room) (user : String) (o : Option String)
    → IsLogged (admit_under o svc s r user)
unfolding admit_under
admit_under-IsLogged svc s r user none = tt
admit_under-IsLogged svc s r user (some tier) = admit-IsLogged svc s r user _

join_found-IsLogged :
    (svc : Service) (s : RoomStore) (user : String) (o : Option Room)
    → IsLogged (join_found o svc s user)
unfolding join_found
join_found-IsLogged svc s user none = tt
join_found-IsLogged svc s user (some r) =
    elim (Bool-cases (contains (participants_of s r.id) user)) [
      | inl member ↦ rw member tt
      | inr new ↦ rw new (admit_under-IsLogged svc s r user _)
    ]

join_parsed-IsLogged :
    (svc : Service) (s : RoomStore) (user : String) (o : Option (List ℕ))
    → IsLogged (join_parsed o svc s user)
unfolding join_parsed
join_parsed-IsLogged svc s user none = tt
join_parsed-IsLogged svc s user (some c) = join_found-IsLogged svc s user _

pub join_by_code-IsLogged :
    (svc : Service) (s : RoomStore) (raw_code : List ℕ) (user : String)
    → IsLogged (join_by_code svc s raw_code user)
unfolding join_by_code
join_by_code-IsLogged svc s raw_code user = join_parsed-IsLogged svc s user _

end_room_as-IsLogged :
    (svc : Service) (id : String) (s : RoomStore) (r : Room) (reason : String)
    → IsLogged (end_room_as svc id s r reason)
unfolding end_room_as end_room envelope
end_room_as-IsLogged svc id s r reason =
    wrote-IsLogged s _ _ _ (λ t h. changed-IsLast s t r.id _ _ (s.rooms r.id) h refl)

hand_over-IsLogged :
    (svc : Service) (s : RoomStore) (r : Room) (room user successor : String)
    → IsLogged (hand_over svc s r room user successor)
unfolding hand_over transfer_host envelope
hand_over-IsLogged svc s r room user successor = elim (Bool-cases (str_eq successor "")) [
  | inl gone ↦ rw gone (end_room_as-IsLogged svc _ s r _)
  | inr someone ↦
      rw someone (wrote-IsLogged s _ _ _ (λ t h. changed-IsLast _ t room _ _ (s.rooms room) h refl))
]

left-IsLogged :
    (svc : Service) (s : RoomStore) (r : Room) (ps : List Participant) (room user : String)
    (e : Envelope) (o : Option RoomStore)
    → ((t : RoomStore) → o ≡ some t → IsLast t (some e))
    → IsLogged (left o svc s r ps room user e)
unfolding left
left-IsLogged svc s r ps room user e none h = tt
left-IsLogged svc s r ps room user e (some t) h = elim (Bool-cases (str_eq user r.host_user_id)) [
  | inl host ↦ rw host (hand_over-IsLogged svc t _ room user _)
  | inr guest ↦ rw guest (h t refl)
]

leave_found-IsLogged :
    (svc : Service) (s : RoomStore) (room user : String) (o : Option Room)
    → IsLogged (leave_found o svc s room user)
unfolding leave_found remove_participant envelope
leave_found-IsLogged svc s room user none = tt
leave_found-IsLogged svc s room user (some r) =
    elim (Bool-cases (contains (participants_of s room) user)) [
      | inr stranger ↦ rw stranger tt
      | inl member ↦
          rw member
            (left-IsLogged svc s r _ room user _ _ (λ t h. appended-IsLast _ t room _ h refl))
    ]

pub leave-IsLogged :
    (svc : Service) (s : RoomStore) (room user : String) → IsLogged (leave svc s room user)
unfolding leave
leave-IsLogged svc s room user = leave_found-IsLogged svc s room user _

end_found-IsLogged :
    (svc : Service) (s : RoomStore) (user : String) (o : Option Room)
    → IsLogged (end_found o svc s user)
unfolding end_found
end_found-IsLogged svc s user none = tt
end_found-IsLogged svc s user (some r) = elim (Bool-cases (str_eq r.host_user_id user)) [
  | inr other ↦ rw other tt
  | inl host ↦ elim (Bool-cases (is_ended r.state)) [
    | inl over ↦ rw (host, over) tt
    | inr live ↦ rw (host, live) (end_room_as-IsLogged svc _ s r _)
  ]
]

pub end-IsLogged :
    (svc : Service) (s : RoomStore) (room user : String) → IsLogged (end svc s room user)
unfolding end
end-IsLogged svc s room user = end_found-IsLogged svc s user _

move_to-IsLogged :
    (svc : Service) (s : RoomStore) (r : Room) (room user : String) (ev : Event) (n : Result State)
    → IsLogged (move_to n svc s r room user ev)
unfolding move_to set_state envelope
move_to-IsLogged svc s r room user ev (Result.illegal i) = tt
move_to-IsLogged svc s r room user ev (Result.ok to) =
    wrote-IsLogged s _ _ _ (λ t h. changed-IsLast s t room _ _ (s.rooms room) h refl)

pub transition-IsLogged :
    (svc : Service) (s : RoomStore) (room user : String) (ev : Event)
    → IsLogged (transition svc s room user ev)
transition-IsLogged svc s room user ev =
    transition_cases svc s room user ev IsLogged (λ e. tt)
      (λ r host. move_to-IsLogged svc s r room user ev _)

created-IsLogged :
    (s : RoomStore) (r : Room) (e : Envelope) (o : Option RoomStore)
    → ((t : RoomStore) → o ≡ some t → IsLast t (some e))
    → IsLogged (created_as s (record { room = r; event = some e }) (created_or_panicked o))
created-IsLogged s r e none h = tt
created-IsLogged s r e (some t) h = h t refl

create_checked-IsLogged :
    (s : RoomStore) (r : Room) (e : Envelope) (o : Option Invalid)
    → e.room ≡ r.id
    → IsLogged (create_checked o s r e)
unfolding create_checked create_room
create_checked-IsLogged s r e (some i) at = tt
create_checked-IsLogged s r e none at = elim (Bool-cases (join_code_taken s r.join_code)) [
  | inl taken ↦ rw taken tt
  | inr free ↦ rw free (created-IsLogged s r e _ (λ t h. appended-IsLast _ t r.id e h at))
]

pub create-IsLogged :
    (svc : Service) (s : RoomStore) (input : CreateInput) → IsLogged (create svc s input)
unfolding opened_room envelope
create-IsLogged svc s input =
    create_cases svc s input IsLogged (λ e. tt)
      (λ mode tier code. create_checked-IsLogged s _ _ _ refl)
