-- ===== src/Rooms/Service/Capacity.antt =====
-- How many members a room admits (server/internal/modules/rooms/service.go).
use vybe.Base.{
  ◌≡◌, refl, sym, ap, ◌∙◌, true, false, Option, none, some, List, [], ◌∷◌, ◌++◌, length, arith,
  Bool-cases, Option-cases, inl, inr, ℕ, suc,
}
use vybe.Base.Int.{pos, leb_ℤ, ◌≤ℤ◌}
use vybe.Base.Text.{String, eq_iff}
use vybe.Rooms.Lifecycle.{can_join, max_participants, is_terminal}
use vybe.Rooms.Succession.{Participant}
use vybe.Rooms.JoinCode.{parse_join_code}
use vybe.Rooms.Log.{Room, RoomStore, next_seq, is_departed}
use vybe.Rooms.Log.Append.{joins, write_room}
use vybe.Rooms.Log.Applied.{newcomer, write_room-IsApplied}
use vybe.Rooms.Directory.{participants_of, active_in_order, seat, is_active, room_by_join_code}
use vybe.Rooms.Operation.{Service, Mutation, ServiceError, Outcome, wrote, envelope}
use vybe.Rooms.Service.{admit, admit_under, join_found, join_parsed, join_by_code, contains}
use vybe.Rooms.Service.Requests.{IsKept, IsReady, envelope-valid}
use vybe.Rooms.Service.Members.{contains-seat}
use vybe.Rooms.Service.Joining.{room_by_join_code-stored}

length-seat : (p : Participant) (l : List Participant) → length (seat p l) ≡ suc (length l)
unfolding seat
length-seat p [] = refl
length-seat p (q ∷ l) = ground (arith, length-seat p l)

-- One active participant more.
length-active_in_order :
    (l : List Participant) (p : Participant)
    → is_active p ≡ true
    → length (active_in_order (l ++ p ∷ [])) ≡ suc (length (active_in_order l))
unfolding active_in_order seat
length-active_in_order [] p h = rw h refl
length-active_in_order (q ∷ l) p h = elim (Bool-cases (is_active q)) [
  | inl active ↦ rw active (
      length-seat q (active_in_order (l ++ p ∷ []))
      ∙ ap suc (length-active_in_order l p h ∙ sym (length-seat q (active_in_order l))))
  | inr gone ↦ rw gone (length-active_in_order l p h)
]

contains-active_in_order :
    (l : List Participant) (p : Participant)
    → is_active p ≡ true
    → contains (active_in_order (l ++ p ∷ [])) p.user_id ≡ true
unfolding active_in_order seat contains
contains-active_in_order [] p h = rw (h, (eq_iff p.user_id p.user_id).1 refl) refl
contains-active_in_order (q ∷ l) p h = elim (Bool-cases (is_active q)) [
  | inl active ↦ rw active (
      contains-seat q (active_in_order (l ++ p ∷ [])) p.user_id
      ∙ ground (arith, contains-active_in_order l p h))
  | inr gone ↦ rw gone (contains-active_in_order l p h)
]

-- A join that was granted: who is in the room after it.
pub record IsAdmitted (svc : Service) (s t : RoomStore) (room : String) (host user : String)
    : Type 0 where
  pub tier : String
  pub host_tier : svc.entitlement_tier host ≡ some tier
  pub new : contains (participants_of s room) user ≡ false
  pub present : contains (participants_of t room) user ≡ true
  pub one_more : length (participants_of t room) ≡ suc (length (participants_of s room))
  pub within : pos (length (participants_of t room)) ≤ℤ max_participants tier

mutation_or : Mutation → Outcome → Mutation
mutation_or d (Outcome.done t m) = m
mutation_or d (Outcome.failed t e) = d

store_or : RoomStore → Outcome → RoomStore
store_or d (Outcome.done t m) = t
store_or d (Outcome.failed t e) = d

room_for :
    (s : RoomStore) (r : Room) (tier : String)
    → can_join r.state tier (pos (length (participants_of s r.id))) ≡ none
    → pos (suc (length (participants_of s r.id))) ≤ℤ max_participants tier
unfolding can_join
room_for s r tier h = elim (Bool-cases (is_terminal r.state)) [
  | inl over ↦ absurd (ground (arith, over, h))
  | inr live ↦
      elim (Bool-cases (leb_ℤ (max_participants tier) (pos (length (participants_of s r.id))))) [
        | inl full ↦ absurd (ground (arith, live, full, h))
        | inr space ↦ ground (arith, space)
      ]
]

admit-IsAdmitted :
    (svc : Service) (s t : RoomStore) (m : Mutation) (r : Room) (user tier : String)
    → s.rooms r.id ≡ some r
    → IsKept s
    → IsReady svc s
    → contains (participants_of s r.id) user ≡ false
    → svc.entitlement_tier r.host_user_id ≡ some tier
    → can_join r.state tier (pos (length (participants_of s r.id))) ≡ none
    → admit none svc s r user ≡ Outcome.done t m
    → IsAdmitted svc s t m.room.id m.room.host_user_id user
unfolding admit wrote write_room next_seq envelope participants_of is_active is_departed mutation_or
    store_or
admit-IsAdmitted svc s t m r user tier found v ready new host space h =
    let e =
      envelope (svc.new_id 0) r.id (next_seq s r.id) "PARTICIPANT_JOINED" user svc.now
        (("role", "participant") ∷ ("userId", user) ∷ []) in
    let valid =
      envelope-valid (svc.new_id 0) r.id "PARTICIPANT_JOINED" user (length (s.events r.id)) svc.now
        _ (ready.ids 0) (v.named r.id r found) refl ready.clock in
    let (u, is, written) =
      write_room-IsApplied s r.id r (joins user false svc.now) e found refl valid in
    let made : Mutation = record {
      room = record r { current_seq = next_seq s r.id };
      event = some e;
    } in
    let same : wrote s made (some u) ≡ Outcome.done t m = ap (wrote s made) (sym is) ∙ h in
    let same_room : made ≡ m = ap (mutation_or m) same in
    let same_store : u ≡ t = ap (store_or t) same in
    let grown = length-active_in_order (s.participants r.id) (newcomer user false svc.now) refl in
    let members : u.participants r.id ≡ s.participants r.id ++ newcomer user false svc.now ∷ [] =
      written.members in
    rw (sym same_room, sym same_store)
      record {
        tier = tier;
        host_tier = host;
        new = new;
        present =
            rw members
              (contains-active_in_order (s.participants r.id) (newcomer user false svc.now) refl);
        one_more = rw members grown;
        within = rw (members, grown) (room_for s r tier space);
      }

admit_under-IsAdmitted :
    (svc : Service) (s t : RoomStore) (m : Mutation) (r : Room) (user : String)
    (tier : Option String)
    → s.rooms r.id ≡ some r
    → IsKept s
    → IsReady svc s
    → contains (participants_of s r.id) user ≡ false
    → svc.entitlement_tier r.host_user_id ≡ tier
    → admit_under tier svc s r user ≡ Outcome.done t m
    → IsAdmitted svc s t m.room.id m.room.host_user_id user
unfolding admit_under admit
admit_under-IsAdmitted svc s t m r user none found v ready new host h = absurd cc
admit_under-IsAdmitted svc s t m r user (some tier) found v ready new host h =
    elim (Option-cases (can_join r.state tier (pos (length (participants_of s r.id))))) [
      | inr (e, closed) ↦ absurd (refused_not_done (rw closed at h))
      | inl space ↦
          admit-IsAdmitted svc s t m r user tier found v ready new host space
            (sym (ap (λ o. admit o svc s r user) space) ∙ h)
    ]
  where
    refused_not_done :
        {u : RoomStore} {e : ServiceError} → Outcome.failed u e ≡ Outcome.done t m → ⊥
    refused_not_done k = cc

join_found-IsAdmitted :
    (svc : Service) (s t : RoomStore) (m : Mutation) (user : String) (o : Option Room)
    → ((r : Room) → o ≡ some r → s.rooms r.id ≡ some r)
    → IsKept s
    → IsReady svc s
    → join_found o svc s user ≡ Outcome.done t m
    → IsAdmitted svc s t m.room.id m.room.host_user_id user
unfolding join_found
join_found-IsAdmitted svc s t m user none found v ready h = absurd cc
join_found-IsAdmitted svc s t m user (some r) found v ready h =
    elim (Bool-cases (contains (participants_of s r.id) user)) [
      | inl in_it ↦ absurd (ground (arith, in_it, h))
      | inr out ↦
          admit_under-IsAdmitted svc s t m r user (svc.entitlement_tier r.host_user_id)
            (found r refl) v ready out refl (sym (rw out refl) ∙ h)
    ]

join_parsed-IsAdmitted :
    (svc : Service) (s t : RoomStore) (m : Mutation) (user : String) (o : Option (List ℕ))
    → IsKept s
    → IsReady svc s
    → join_parsed o svc s user ≡ Outcome.done t m
    → IsAdmitted svc s t m.room.id m.room.host_user_id user
unfolding join_parsed
join_parsed-IsAdmitted svc s t m user none v ready h = absurd cc
join_parsed-IsAdmitted svc s t m user (some code) v ready h =
    join_found-IsAdmitted svc s t m user (room_by_join_code s code)
      (λ r k. room_by_join_code-stored s code r v k) v ready h

-- A join that succeeds lets in a user who was no active member, raises the number of active members by one,
-- and does not take it over what the tier of the room's host allows; the user is an active member after it.
pub join_by_code-IsAdmitted :
    (svc : Service) (s t : RoomStore) (m : Mutation) (raw_code : List ℕ) (user : String)
    → IsKept s
    → IsReady svc s
    → join_by_code svc s raw_code user ≡ Outcome.done t m
    → IsAdmitted svc s t m.room.id m.room.host_user_id user
unfolding join_by_code
join_by_code-IsAdmitted svc s t m raw_code user v ready h =
    join_parsed-IsAdmitted svc s t m user (parse_join_code svc.upper_rune raw_code) v ready h
