-- ===== src/Rooms/Service/Writes.antt =====
-- The writes that end the operations of the rooms service
-- (server/internal/modules/rooms/service.go).
use vybe.Base.{◌≡◌, refl, ap, ◌∙◌, false, none, some, length, Bool-cases, inl, inr}
use vybe.Base.Text.{String, str_eq, is_empty}
use vybe.Base.Word.{is_zero_time}
use vybe.Realtime.EventLog.{Envelope, validate}
use vybe.Rooms.Log.{Room, RoomStore, next_seq}
use vybe.Rooms.Log.Append.{IsSound, RoomWrite, hands_over, ends, write_room, write_room-IsSound}
use vybe.Rooms.Log.Evolution.{Evolves, Evolves-trans, KeepsEnded, write_room-Evolves}
use vybe.Rooms.Log.Applied.{row_after, write_room-IsApplied}
use vybe.Rooms.Operation.{Service, Mutation, Outcome, wrote, envelope}
use vybe.Rooms.Service.{end_room_as, hand_over, host_change}
use vybe.Rooms.Service.Requests.{envelope-valid}

-- Two rooms agree in what an operation reports of the room.
abbrev pub Agrees : Room → Room → Type 0
Agrees a b =
    (a.id ≡ b.id)
    × (a.state ≡ b.state)
    × (a.host_user_id ≡ b.host_user_id)
    × (a.join_code ≡ b.join_code)
    × (a.current_seq ≡ b.current_seq)
    × (a.ended_at ≡ b.ended_at)
    × (a.end_reason ≡ b.end_reason)

-- The store holds the room as the mutation reports it.
abbrev pub Stands : RoomStore → Mutation → Type 0
Stands t m = (x : Room) × (t.rooms m.room.id ≡ some x) × Agrees x m.room

abbrev pub Succeeds : RoomStore → Outcome → Type 0
Succeeds s (Outcome.done t m) = IsSound t × Evolves s t × Stands t m
Succeeds s (Outcome.failed t e) = ⊥

pub Succeeds-later : (s t : RoomStore) (o : Outcome) → Evolves s t → Succeeds t o → Succeeds s o
Succeeds-later s t (Outcome.done u m) v h = (h.0, Evolves-trans s t u v h.1, h.2)
Succeeds-later s t (Outcome.failed u e) v h = h

pub wrote-Succeeds :
    (s : RoomStore) (room : String) (r : Room) (w : RoomWrite) (e : Envelope) (m : Mutation)
    → s.rooms room ≡ some r
    → e.seq ≡ next_seq s room
    → validate e ≡ none
    → IsSound s
    → KeepsEnded r w
    → m.room.id ≡ room
    → Agrees (row_after w e r) m.room
    → Succeeds s (wrote s m (write_room s room w e))
unfolding wrote
wrote-Succeeds s room r w e m found seq valid sound keeps id agrees =
    let (t, is, written) = write_room-IsApplied s room r w e found seq valid in
    rw is (
      write_room-IsSound s t room w e is sound,
      write_room-Evolves s t room r w e is found keeps,
      (row_after w e r, ap t.rooms id ∙ written.row, agrees),
    )

pub end_room_as-Succeeds :
    (svc : Service) (id : String) (s : RoomStore) (stored r : Room) (reason : String)
    → s.rooms r.id ≡ some stored
    → stored.id ≡ r.id
    → stored.host_user_id ≡ r.host_user_id
    → stored.join_code ≡ r.join_code
    → is_empty id ≡ false
    → is_empty r.id ≡ false
    → is_zero_time svc.now ≡ false
    → IsSound s
    → Succeeds s (end_room_as svc id s r reason)
unfolding end_room_as write_room next_seq envelope
end_room_as-Succeeds svc id s stored r reason found same_id same_host same_code new named clock
      sound =
    wrote-Succeeds s r.id stored (ends reason svc.now) _ _ found refl
      (envelope-valid id r.id "ROOM_ENDED" "" (length (s.events r.id)) svc.now _ new named refl
        clock)
      sound tt refl (same_id, refl, same_host, same_code, refl, refl, refl)

pub hand_over-Succeeds :
    (svc : Service) (s : RoomStore) (stored r : Room) (room user successor : String)
    → s.rooms room ≡ some stored
    → r.id ≡ room
    → stored.id ≡ r.id
    → stored.state ≡ r.state
    → stored.host_user_id ≡ r.host_user_id
    → stored.join_code ≡ r.join_code
    → stored.ended_at ≡ r.ended_at
    → stored.end_reason ≡ r.end_reason
    → is_empty (svc.new_id 1) ≡ false
    → is_empty room ≡ false
    → is_zero_time svc.now ≡ false
    → IsSound s
    → Succeeds s (hand_over svc s r room user successor)
unfolding hand_over write_room next_seq envelope
hand_over-Succeeds svc s stored r room user successor found id same_id same_state same_host
      same_code at why new named clock sound =
    elim (Bool-cases (str_eq successor "")) [
      | inl gone ↦ rw gone (
          end_room_as-Succeeds svc (svc.new_id 1) s stored r "reaper_abandoned"
            (ap s.rooms id ∙ found) same_id same_host same_code new (ap is_empty id ∙ named) clock
            sound)
      | inr found_one ↦ rw found_one (
          wrote-Succeeds s room stored (hands_over successor)
            (host_change svc s room user successor) _ found refl
            (envelope-valid (svc.new_id 1) room "HOST_CHANGED" "" (length (s.events room)) svc.now _
              new named refl clock)
            sound tt id (same_id, same_state, refl, same_code, refl, at, why))
    ]
