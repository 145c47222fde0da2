-- ===== src/Rooms/Service/Joining.antt =====
-- Admission to a room by its code (server/internal/modules/rooms/service.go).
use vybe.Base.{
  ◌≡◌, refl, sym, ap, ◌∙◌, false, Option, none, some, List, length, Bool-cases, inl, inr, ℕ,
}
use vybe.Base.Int.{pos}
use vybe.Base.Text.{String}
use vybe.Rooms.Lifecycle.{JoinError, can_join}
use vybe.Rooms.JoinCode.{parse_join_code}
use vybe.Rooms.Log.{Room, RoomStore, next_seq, is_ended}
use vybe.Rooms.Log.Append.{joins, write_room}
use vybe.Rooms.Directory.{participants_of, room_by_join_code}
use vybe.Rooms.Operation.{Service, envelope}
use vybe.Rooms.Service.{admit, admit_under, join_found, join_parsed, join_by_code, contains}
use vybe.Rooms.Service.Requests.{IsKept, IsReady, envelope-valid}
use vybe.Rooms.Service.Writes.{wrote-Succeeds}
use vybe.Rooms.Service.Settled.{Settles, succeeded}
use vybe.Rooms.Service.Codes.{first_live-some, first_live-found}

admit-Settles :
    (svc : Service) (s : RoomStore) (r : Room) (user : String) (o : Option JoinError)
    → s.rooms r.id ≡ some r
    → IsKept s
    → IsReady svc s
    → Settles s (admit o svc s r user)
unfolding admit write_room next_seq envelope
admit-Settles svc s r user (some e) found v ready = (refl, refl)
admit-Settles svc s r user none found v ready = succeeded s _ (
    wrote-Succeeds s r.id r (joins user false svc.now) _ _ found refl
      (envelope-valid (svc.new_id 0) r.id "PARTICIPANT_JOINED" user (length (s.events r.id)) svc.now
        _ (ready.ids 0) (v.named r.id r found) refl ready.clock)
      v.sound tt refl (refl, refl, refl, refl, refl, refl, refl))

admit_under-Settles :
    (svc : Service) (s : RoomStore) (r : Room) (user : String) (o : Option String)
    → s.rooms r.id ≡ some r
    → IsKept s
    → IsReady svc s
    → Settles s (admit_under o svc s r user)
unfolding admit_under
admit_under-Settles svc s r user none found v ready = (refl, refl)
admit_under-Settles svc s r user (some tier) found v ready =
    admit-Settles svc s r user (can_join r.state tier (pos (length (participants_of s r.id)))) found
      v ready

join_found-Settles :
    (svc : Service) (s : RoomStore) (user : String) (o : Option Room)
    → ((r : Room) → o ≡ some r → s.rooms r.id ≡ some r)
    → IsKept s
    → IsReady svc s
    → Settles s (join_found o svc s user)
unfolding join_found
join_found-Settles svc s user none found v ready = (refl, refl)
join_found-Settles svc s user (some r) found v ready =
    elim (Bool-cases (contains (participants_of s r.id) user)) [
      | inl in_it ↦ rw in_it (refl, refl)
      | inr out ↦ rw out (
          admit_under-Settles svc s r user (svc.entitlement_tier r.host_user_id) (found r refl) v
            ready)
    ]

-- The room that a code leads to stands under its id.
pub room_by_join_code-stored :
    (s : RoomStore) (code : List ℕ) (r : Room)
    → IsKept s
    → room_by_join_code s code ≡ some r
    → s.rooms r.id ≡ some r
unfolding room_by_join_code
room_by_join_code-stored s code r v h =
    let (j, found, same, live) = first_live-some s.rooms code s.room_ids r h in
    ap s.rooms (v.keyed j r found) ∙ found

join_parsed-Settles :
    (svc : Service) (s : RoomStore) (user : String) (o : Option (List ℕ))
    → IsKept s
    → IsReady svc s
    → Settles s (join_parsed o svc s user)
unfolding join_parsed
join_parsed-Settles svc s user none v ready = (refl, refl)
join_parsed-Settles svc s user (some code) v ready =
    join_found-Settles svc s user (room_by_join_code s code)
      (λ r h. room_by_join_code-stored s code r v h) v ready

pub join_by_code-Settles :
    (svc : Service) (s : RoomStore) (raw_code : List ℕ) (user : String)
    → IsKept s
    → IsReady svc s
    → Settles s (join_by_code svc s raw_code user)
unfolding join_by_code
join_by_code-Settles svc s raw_code user v ready =
    join_parsed-Settles svc s user (parse_join_code svc.upper_rune raw_code) v ready

-- In a well-formed store the code of a live room leads to that room.
pub room_by_join_code-own :
    (s : RoomStore) (j : String) (r : Room)
    → IsKept s
    → s.rooms j ≡ some r
    → is_ended r.state ≡ false
    → room_by_join_code s r.join_code ≡ some r
unfolding room_by_join_code
room_by_join_code-own s j r v found live =
    let (q, is) =
      first_live-found s.rooms r.join_code s.room_ids j r (v.listed j r found) found refl live in
    let (i, at, same, lives) = first_live-some s.rooms r.join_code s.room_ids q is in
    let one : i ≡ j = v.unique_codes i j q r at found lives live same in
    let both : some q ≡ some r = sym at ∙ ap s.rooms one ∙ found in is ∙ both
