-- ===== src/Rooms/Service/Hosting.antt =====
-- Who hosts a room after its host left, and how a room ends
-- (server/internal/modules/rooms/service.go).
use vybe.Base.{
  ◌⊎◌, ◌≡◌, refl, sym, ap, ◌∙◌, true, false, ◌&&◌, not, Option, none, some, List, [], ◌∷◌, length,
  map, arith, Bool-cases, inl, inr, Occurs,
}
use vybe.Base.Word.{is_zero_time}
use vybe.Base.Int.{ℤ}
use vybe.Base.Text.{String, str_eq, eq_iff, is_empty}
use vybe.Rooms.Lifecycle.{State}
use vybe.Rooms.Succession.{
  Participant, successor_for, find_host, seat_is_kept, longest_tenured, user_or_empty,
}
use vybe.Rooms.Succession.Choice.{IsLongest, longest_tenured-IsLongest}
use vybe.Rooms.Log.{Room, RoomStore, next_seq, has_active, seated, remove_participant}
use vybe.Rooms.Log.Append.{leaves, hands_over, ends, write_room}
use vybe.Rooms.Log.Applied.{row_after, write_room-IsApplied}
use vybe.Rooms.Directory.{participants_of}
use vybe.Rooms.Operation.{state_text, Service, Mutation, Outcome, wrote, envelope}
use vybe.Rooms.Service.{
  contains, without, end_room_as, hand_over, host_change, left, departure, leave_found, leave,
}
use vybe.Rooms.Service.Requests.{IsKept, IsReady, envelope-valid}
use vybe.Rooms.Service.Members.{contains-participants_of, has_active-departed, has_active-seated}

-- Whoever a list contains is in it.
contains-member :
    (p : Participant) (l : List Participant) → Occurs p l → contains l p.user_id ≡ true
unfolding contains
contains-member p [] h = absurd h
contains-member p (q ∷ l) (inl e) =
    ground (arith, (eq_iff q.user_id p.user_id).1 (ap (λ x. x.user_id) (sym e)))
contains-member p (q ∷ l) (inr h) = ground (arith, contains-member p l h)

-- The successor is one of the participants that are connected and no host, or there is none.
pub successor_for-member :
    (ps : List Participant) (now : ℤ)
    → (successor_for ps now ≡ "") ⊎ (contains ps (successor_for ps now) ≡ true)
unfolding successor_for
successor_for-member ps now = elim (Bool-cases (seat_is_kept (find_host ps) now)) [
  | inl kept ↦ rw kept (inl refl)
  | inr due ↦ rw due (of_choice (longest_tenured none ps) (longest_tenured-IsLongest ps))
]
  where
    of_choice :
        (o : Option Participant)
        → IsLongest o ps
        → (user_or_empty o ≡ "") ⊎ (contains ps (user_or_empty o) ≡ true)
    of_choice none h = inl refl
    of_choice (some p) h = inr (contains-member p ps h.0)

contains-without :
    (ps : List Participant) (user x : String)
    → contains (without ps user) x ≡ (contains ps x && not (str_eq user x))
unfolding contains without
contains-without [] user x = refl
contains-without (p ∷ l) user x =
    ground
      (arith, contains-without l user x, eq_iff p.user_id user, eq_iff p.user_id x, eq_iff user x)

-- The room is over with its members as they were, or handed to the successor.
abbrev Handed : RoomStore → RoomStore → String → String → Mutation → Type 0
Handed u t room successor m =
    ((m.room.state ≡ State.ended) × (t.participants room ≡ u.participants room))
    ⊎ ((m.room.host_user_id ≡ successor)
        × (str_eq successor "" ≡ false)
        × (t.participants room ≡ map (seated successor) (u.participants room)))

hand_over-Handed :
    (svc : Service) (u : RoomStore) (stored r : Room) (room user successor : String)
    → u.rooms room ≡ some stored
    → r.id ≡ room
    → is_empty (svc.new_id 1) ≡ false
    → is_empty room ≡ false
    → is_zero_time svc.now ≡ false
    → (t : RoomStore) × (m : Mutation) × (hand_over svc u r room user successor ≡ Outcome.done t m)
      × Handed u t room successor m
unfolding hand_over end_room_as wrote write_room next_seq envelope
hand_over-Handed svc u stored r room user successor found id new named clock =
    elim (Bool-cases (str_eq successor "")) [
      | inl gone ↦
          let e =
            envelope (svc.new_id 1) r.id (next_seq u r.id) "ROOM_ENDED" "" svc.now
              (("from", state_text r.state) ∷ ("reason", "reaper_abandoned") ∷ []) in
          let valid =
            envelope-valid (svc.new_id 1) r.id "ROOM_ENDED" "" (length (u.events r.id)) svc.now _
              new (ap is_empty id ∙ named) refl clock in
          let (t, is, written) =
            write_room-IsApplied u r.id stored (ends "reaper_abandoned" svc.now) e
              (ap u.rooms id ∙ found) refl valid in
          let m : Mutation = record {
            room = record r {
              state = State.ended;
              ended_at = some svc.now;
              end_reason = "reaper_abandoned";
              current_seq = next_seq u r.id;
            };
            event = some e;
          } in
          (
            t,
            m,
            rw (gone, is) refl,
            inl (refl, ap t.participants (sym id) ∙ written.members ∙ ap u.participants id),
          )
      | inr someone ↦
          let e = host_change svc u room user successor in
          let valid =
            envelope-valid (svc.new_id 1) room "HOST_CHANGED" "" (length (u.events room)) svc.now _
              new named refl clock in
          let (t, is, written) =
            write_room-IsApplied u room stored (hands_over successor) e found refl valid in
          let m : Mutation = record {
            room = record r { host_user_id = successor; current_seq = next_seq u room };
            event = some e;
          } in
          (t, m, rw (someone, is) refl, inr (refl, someone, written.members))
    ]

-- A room after a member of it left.
pub record IsLeft (r : Room) (t : RoomStore) (m : Mutation) (room user : String) : Type 0 where
  pub gone : contains (participants_of t room) user ≡ false
  pub host :
      ((str_eq user r.host_user_id ≡ true)
        × ((m.room.state ≡ State.ended)
            ⊎ (contains (participants_of t room) m.room.host_user_id ≡ true)))
      ⊎ ((str_eq user r.host_user_id ≡ false)
          × (m.room.state ≡ r.state)
          × (m.room.host_user_id ≡ r.host_user_id))

Handed-IsLeft :
    (s u t : RoomStore) (r : Room) (m : Mutation) (room user : String) (now : ℤ)
    → str_eq user r.host_user_id ≡ true
    → ((x : String)
        → has_active x (u.participants room)
          ≡ (has_active x (s.participants room) && not (str_eq user x)))
    → Handed u t room (successor_for (without (participants_of s room) user) now) m
    → IsLeft r t m room user
Handed-IsLeft s u t r m room user now host left_over (inl (over, same)) = record {
  gone =
      contains-participants_of t room user
      ∙ ap (has_active user) same
      ∙ left_over user
      ∙ ground (arith, eq_iff user user);
  host = inl (host, inl over);
}
Handed-IsLeft s u t r m room user now host left_over (inr (is, someone, same)) =
    let successor = successor_for (without (participants_of s room) user) now in
    let active : (x : String)
        → contains (participants_of t room) x
          ≡ (has_active x (s.participants room) && not (str_eq user x)) =
      λ x.
        contains-participants_of t room x
        ∙ ap (has_active x) same
        ∙ has_active-seated (u.participants room) successor x
        ∙ left_over x in
    record {
      gone = active user ∙ ground (arith, eq_iff user user);
      host = inl (
        host,
        inr (
            active m.room.host_user_id
            ∙ rw is (chosen (successor_for-member (without (participants_of s room) user) now))),
      );
    }
  where
    chosen :
        (successor_for (without (participants_of s room) user) now ≡ "")
          ⊎ (contains
                (without (participants_of s room) user)
                (successor_for (without (participants_of s room) user) now)
              ≡ true)
        → (has_active
              (successor_for (without (participants_of s room) user) now)
              (s.participants room)
            && not (str_eq user (successor_for (without (participants_of s room) user) now)))
          ≡ true
    chosen (inl none_left) = absurd (
        ground (
          arith,
          someone,
          eq_iff (successor_for (without (participants_of s room) user) now) "",
          none_left,
        ))
    chosen (inr member) =
        ap (λ b. b && not (str_eq user (successor_for (without (participants_of s room) user) now)))
          (sym (
            contains-participants_of s room
              (successor_for (without (participants_of s room) user) now)))
        ∙ sym (
            contains-without (participants_of s room) user
              (successor_for (without (participants_of s room) user) now))
        ∙ member

left-IsLeft :
    (svc : Service) (s : RoomStore) (r : Room) (room user : String)
    → s.rooms room ≡ some r
    → IsKept s
    → IsReady svc s
    → (t : RoomStore) × (m : Mutation) × (left
          (remove_participant s room user svc.now (departure svc s room user))
          svc
          s
          r
          (participants_of s room)
          room
          user
          (departure svc s room user)
        ≡ Outcome.done t m)
      × IsLeft r t m room user
unfolding left write_room next_seq envelope
left-IsLeft svc s r room user found v ready =
    let e = departure svc s room user in
    let valid =
      envelope-valid (svc.new_id 0) room "PARTICIPANT_LEFT" user (length (s.events room)) svc.now
        (("userId", user) ∷ []) (ready.ids 0) (v.named room r found) refl ready.clock in
    let (u, is, written) = write_room-IsApplied s room r (leaves user svc.now) e found refl valid in
    let left_over : (x : String)
        → has_active x (u.participants room)
          ≡ (has_active x (s.participants room) && not (str_eq user x)) =
      λ x.
        ap (has_active x) written.members
        ∙ has_active-departed (s.participants room) user x svc.now in
    elim (Bool-cases (str_eq user r.host_user_id)) [
      | inl host ↦
          let (t, m, done, handed) =
            hand_over-Handed svc u (row_after (leaves user svc.now) e r)
              (record r { current_seq = e.seq }) room user
              (successor_for (without (participants_of s room) user) svc.now) written.row
              (v.keyed room r found) (ready.ids 1) (v.named room r found) ready.clock in
          (
            t,
            m,
            rw (is, host) done,
            Handed-IsLeft s u t r m room user svc.now host left_over handed,
          )
      | inr guest ↦
          let m : Mutation = record { room = record r { current_seq = e.seq }; event = some e } in
          (
            u,
            m,
            rw (is, guest) refl,
            record {
              gone =
                  contains-participants_of u room user
                  ∙ left_over user
                  ∙ ground (arith, eq_iff user user);
              host = inr (guest, refl, refl);
            },
          )
    ]

-- An active member of a room of a well-formed store can always leave it, and is no active member after it.
-- When the host leaves, the room is over or its host is an active member; when another leaves, the state
-- and the host stay.
pub leave-IsLeft :
    (svc : Service) (s : RoomStore) (r : Room) (room user : String)
    → s.rooms room ≡ some r
    → contains (participants_of s room) user ≡ true
    → IsKept s
    → IsReady svc s
    → (t : RoomStore) × (m : Mutation) × (leave svc s room user ≡ Outcome.done t m)
      × IsLeft r t m room user
unfolding leave leave_found
leave-IsLeft svc s r room user found member v ready =
    let (t, m, done, well) = left-IsLeft svc s r room user found v ready in
    (t, m, rw (found, member) done, well)
